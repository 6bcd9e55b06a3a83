-- ===== src/Processor/Cluster/Groups.antt =====
-- The groups of src/argus/processor/cluster.py, against the rows of each ticker.
use mathlib.Core.Path.{subst}
use mathlib.Core.List.{append-nil, append_assoc}
use argus_core.Common.{
  ℕ, ◌≤◌, ◌≡◌, refl, sym, ◌∙◌, ap, Bool, true, false, List, [], ◌∷◌, ◌⊎◌, ◌++◌, Option, none, some,
  arith, leb, filter, for_each, length, if◌then◌else◌, Bool-cases, inl, inr, All,
}
use argus_core.Common.Text.{Text, text_eq, text_eq_iff}
use argus_core.Config.{DistinctKeys, Dict, get, set, get-set}
use argus_core.Models.{RawEvent}
use argus_core.Processor.Cluster.{
  ticker_text, add_to_group, group, group_or_empty, cluster_rows, find_form4_clusters,
}

-- The rows of one ticker.
abbrev pub share : Text → List RawEvent → List RawEvent
share t = filter (λ e. text_eq (ticker_text e) t)

add_member :
    (e : RawEvent) (groups : Dict (List RawEvent)) (t : Text)
    → group_or_empty (get t (add_to_group e groups))
      ≡ group_or_empty (get t groups) ++ share t (e ∷ [])
unfolding add_to_group
add_member e groups t = elim (Bool-cases (text_eq (ticker_text e) t)) [
  | inl same ↦
      let p : ticker_text e ≡ t = (text_eq_iff (ticker_text e) t).0 same in
      rw (get-set, same) (rw p refl)
  | inr other ↦ rw (get-set, other) (sym (append-nil _))
]

share_cons :
    (t : Text) (e : RawEvent) (rows : List RawEvent)
    → share t (e ∷ []) ++ share t rows ≡ share t (e ∷ rows)
share_cons t e rows = elim (Bool-cases (text_eq (ticker_text e) t)) [
  | inl same ↦ rw same refl
  | inr other ↦ rw other refl
]

-- Whatever the groups were, grouping appends to each its share.
group_from :
    (rows : List RawEvent) (groups : Dict (List RawEvent)) (t : Text)
    → group_or_empty (get t (for_each add_to_group rows groups))
      ≡ group_or_empty (get t groups) ++ share t rows
unfolding for_each
group_from [] groups t = sym (append-nil _)
group_from (e ∷ rows) groups t =
    group_from rows (add_to_group e groups) t
    ∙ ap (λ g. g ++ share t rows) (add_member e groups t)
    ∙ append_assoc (group_or_empty (get t groups)) (share t (e ∷ [])) (share t rows)
    ∙ ap (λ g. group_or_empty (get t groups) ++ g) (share_cons t e rows)

group-share : (rows : List RawEvent) (t : Text) → group_or_empty (get t (group rows)) ≡ share t rows
unfolding group get
group-share rows t = group_from rows [] t

All-set :
    {V : Type 0} (i k : Text) (v : V) (d : Dict V)
    → text_eq k i ≡ false
    → All (λ e. text_eq e.0 i ≡ false) d
    → All (λ e. text_eq e.0 i ≡ false) (set k v d)
unfolding set
All-set i k v [] ne h = (ne, tt)
All-set i k v ((j, w) ∷ d) ne h = elim (Bool-cases (text_eq j k)) [
  | inl same ↦ rw same (ne, h.1)
  | inr other ↦ rw other (h.0, All-set i k v d ne h.1)
]

text_eq_sym : (s t : Text) → text_eq s t ≡ false → text_eq t s ≡ false
text_eq_sym s t h = ground (arith, text_eq_iff s t, text_eq_iff t s)

set-DistinctKeys :
    {V : Type 0} (k : Text) (v : V) (d : Dict V) → DistinctKeys d → DistinctKeys (set k v d)
unfolding set
set-DistinctKeys k v [] h = (tt, tt)
set-DistinctKeys k v ((j, w) ∷ d) h = elim (Bool-cases (text_eq j k)) [
  | inl same ↦
      let p : j ≡ k = (text_eq_iff j k).0 same in
      rw same (subst (λ x. All (λ e. text_eq e.0 x ≡ false) d) p h.0, h.1)
  | inr other ↦ rw other (All-set j k v d (text_eq_sym j k other) h.0, set-DistinctKeys k v d h.1)
]

group_from-DistinctKeys :
    (rows : List RawEvent) (groups : Dict (List RawEvent))
    → DistinctKeys groups
    → DistinctKeys (for_each add_to_group rows groups)
unfolding for_each add_to_group
group_from-DistinctKeys [] groups h = h
group_from-DistinctKeys (e ∷ rows) groups h =
    group_from-DistinctKeys rows (add_to_group e groups)
      (set-DistinctKeys (ticker_text e) _ groups h)

-- The entry of a key, if it passes a test.
abbrev passing : {V : Type 0} → (V → Bool) → Option V → Option V
passing p none = none
passing p (some v) = if p v then some v else none

get_absent :
    {V : Type 0} (p : Text × V → Bool) (k : Text) (d : Dict V)
    → All (λ e. text_eq e.0 k ≡ false) d
    → get k (filter p d) ≡ none
unfolding get
get_absent p k [] h = refl
get_absent p k ((j, w) ∷ d) h = elim (Bool-cases (p (j, w))) [
  | inl kept ↦ rw (kept, h.0) (get_absent p k d h.1)
  | inr dropped ↦ rw dropped (get_absent p k d h.1)
]

get-filter :
    {V : Type 0} (p : V → Bool) (k : Text) (d : Dict V)
    → DistinctKeys d
    → get k (filter (λ e. p e.1) d) ≡ passing p (get k d)
unfolding get
get-filter p k [] h = refl
get-filter p k ((j, w) ∷ d) h = elim (Bool-cases (text_eq j k)) [
  | inl same ↦ here same (Bool-cases (p w))
  | inr other ↦ elim (Bool-cases (p w)) [
    | inl kept ↦ rw (kept, other) (get-filter p k d h.1)
    | inr dropped ↦ rw (dropped, other) (get-filter p k d h.1)
  ]
]
  where
    here :
        text_eq j k ≡ true
        → (p w ≡ true) ⊎ (p w ≡ false)
        → get k (filter (λ e. p e.1) ((j, w) ∷ d))
          ≡ passing p (if text_eq j k then some w else get k d)
    here same (inl kept) = rw (kept, same) (rw kept refl)
    here same (inr dropped) =
        rw (dropped, same)
          (rw dropped (
            get_absent (λ e. p e.1) k d
              (subst (λ x. All (λ e. text_eq e.0 x ≡ false) d) ((text_eq_iff j k).0 same) h.0)))

by_size :
    (min_filings : ℕ) (o : Option (List RawEvent)) (g : List RawEvent)
    → 1 ≤ min_filings
    → group_or_empty o ≡ g
    → passing (λ ms. leb min_filings (length ms)) o
      ≡ (if leb min_filings (length g) then some g else none)
by_size min_filings none g h e = rw (← e) (ground arith)
by_size min_filings (some ms) g h e = rw e

-- With a minimum of one filing or more, a ticker has an entry exactly if the query finds that
-- many of its filings, and the entry is all of them, in the order of the query.
pub find_form4_clusters_lem :
    (ahead : Text → Text → Bool) (since min_filings : ℕ) (rows : List RawEvent) (t : Text)
    → 1 ≤ min_filings
    → get t (find_form4_clusters ahead since min_filings rows) ≡ (
        if leb min_filings (length (share t (cluster_rows ahead since rows)))
        then some (share t (cluster_rows ahead since rows))
        else none)
unfolding find_form4_clusters
find_form4_clusters_lem ahead since min_filings rows t h =
    get-filter (λ ms. leb min_filings (length ms)) t (group (cluster_rows ahead since rows))
      (keys rows)
    ∙ by_size min_filings (get t (group (cluster_rows ahead since rows))) _ h
        (group-share (cluster_rows ahead since rows) t)
  where
    keys : (r : List RawEvent) → DistinctKeys (group (cluster_rows ahead since r))
    keys r = unfold group in group_from-DistinctKeys (cluster_rows ahead since r) [] tt
