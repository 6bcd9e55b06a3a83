-- ===== src/Config.antt =====
-- src/argus/common/config.py: the watchlist configuration and its thresholds.
pub mod Merging
pub mod Settings
use argus_core.Common.{
  false, All, ℕ, ◌≡◌, refl, List, [], ◌∷◌, Option, none, some, arith, if◌then◌else◌,
}
use argus_core.Common.Text.{Text, codes, text_eq, text_eq_iff}

-- A Python dict with texts for keys, in insertion order.
abbrev pub Dict : Type 0 → Type 0
Dict V = List (Text × V)

unfoldable pub get : {V : Type 0} → Text → Dict V → Option V
get k [] = none
get k ((j, v) ∷ d) = if text_eq j k then some v else get k d

unfoldable pub set : {V : Type 0} → Text → V → Dict V → Dict V
set k v [] = (k, v) ∷ []
set k v ((j, w) ∷ d) = if text_eq j k then (k, v) ∷ d else (j, w) ∷ set k v d

pub record WatchlistConfig : Type 0 where
  pub watchlist : List (Dict Text)
  pub keywords : List Text
  pub thresholds : Dict ℕ

abbrev pub default_thresholds : Dict ℕ
default_thresholds =
    (codes "min_relevance_score", 70)
    ∷ (codes "instant_score", 90)
    ∷ (codes "form4_buy_min_usd", 100000)
    ∷ (codes "form4_sell_min_usd", 1000000)
    ∷ (codes "form4_cluster_min_filings", 2)
    ∷ []

-- `{**base, **other}`: a later key writes over an earlier one, in its place.
pub merge : {V : Type 0} → Dict V → Dict V → Dict V
unfolding set
merge base [] = base
merge base ((k, v) ∷ other) = merge (set k v base) other

-- The document of a watchlist file: a key that is absent is `none`, and so are null thresholds. (A null
-- list fails the validation.)
pub record WatchlistFile : Type 0 where
  pub watchlist : Option (List (Dict Text))
  pub keywords : Option (List Text)
  pub thresholds : Option (Dict ℕ)

abbrev pub or_empty : {A : Type 0} → Option (List A) → List A
or_empty none = []
or_empty (some l) = l

-- `load_watchlist`, after `yaml.safe_load`.
pub load_watchlist : WatchlistFile → WatchlistConfig
load_watchlist file = record {
  watchlist = or_empty file.watchlist;
  keywords = or_empty file.keywords;
  thresholds = merge default_thresholds (or_empty file.thresholds);
}

-- `[w["ticker"] for w in watchlist]`: a missing key is a KeyError, `none`.
pub tickers_of : List (Dict Text) → Option (List Text)
tickers_of [] = some []
tickers_of (w ∷ ws) = elim (get (codes "ticker") w) [
  | none ↦ none
  | some t ↦ elim (tickers_of ws) [ none ↦ none | some ts ↦ some (t ∷ ts) ]
]

-- No key is there twice.
abbrev pub DistinctKeys : {V : Type 0} → Dict V → Type 0
DistinctKeys [] = Unit
DistinctKeys ((k, v) ∷ d) = All (λ e. text_eq e.0 k ≡ false) d × DistinctKeys d

-- Reading after writing.
pub get-set :
    {V : Type 0} (j k : Text) (v : V) (d : Dict V)
    → get j (set k v d) ≡ (if text_eq k j then some v else get j d)
unfolding get set
get-set j k v [] = refl
get-set j k v ((i, w) ∷ d) =
    ground (arith, get-set j k v d, text_eq_iff k j, text_eq_iff i k, text_eq_iff i j)
