-- ===== src/Config/Merging.antt =====
-- The thresholds that `load_watchlist` of src/argus/common/config.py merges with the defaults.
use argus_core.Common.{
  ℕ, ◌≡◌, refl, ◌∙◌, false, [], ◌∷◌, Option, none, some, All, Bool-cases, inl, inr,
}
use mathlib.Core.Path.{subst}
use argus_core.Common.Text.{Text, text_eq, text_eq_iff}
use argus_core.Config.{
  Dict, DistinctKeys, get, set, get-set, merge, default_thresholds, WatchlistFile, load_watchlist,
}

abbrev pub or_else : {V : Type 0} → Option V → Option V → Option V
or_else none o = o
or_else (some v) o = some v

get_missing :
    {V : Type 0} (k : Text) (d : Dict V) → All (λ e. text_eq e.0 k ≡ false) d → get k d ≡ none
unfolding get
get_missing k [] h = refl
get_missing k ((j, w) ∷ d) h = rw h.0 (get_missing k d h.1)

get-merge :
    {V : Type 0} (k : Text) (base other : Dict V)
    → DistinctKeys other
    → get k (merge base other) ≡ or_else (get k other) (get k base)
unfolding get merge
get-merge k base [] h = refl
get-merge k base ((j, v) ∷ other) h = elim (Bool-cases (text_eq j k)) [
  | inl same ↦
      let p : j ≡ k = (text_eq_iff j k).0 same in
      get-merge k (set j v base) other h.1
      ∙ rw
          (
            same,
            get-set k j v base,
            same,
            get_missing k other (subst (λ x. All (λ e. text_eq e.0 x ≡ false) other) p h.0),
          )
          refl
  | inr different ↦
      get-merge k (set j v base) other h.1 ∙ rw (different, get-set k j v base, different) refl
]

-- If a watchlist file gives thresholds, no key of them twice, then a threshold that is loaded has
-- the value that the file gives it, and its default if the file gives none.
pub thresholds-merge :
    (file : WatchlistFile) (given : Dict ℕ) (k : Text)
    → file.thresholds ≡ some given
    → DistinctKeys given
    → get k (load_watchlist file).thresholds ≡ or_else (get k given) (get k default_thresholds)
unfolding load_watchlist
thresholds-merge file given k h distinct = rw h (get-merge k default_thresholds given distinct)

-- A file without thresholds leaves the defaults.
pub thresholds-missing :
    (file : WatchlistFile) (k : Text)
    → file.thresholds ≡ none
    → get k (load_watchlist file).thresholds ≡ get k default_thresholds
unfolding load_watchlist merge
thresholds-missing file k h = rw (h, merge) refl
