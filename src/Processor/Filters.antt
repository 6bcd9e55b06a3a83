-- ===== src/Processor/Filters.antt =====
-- src/argus/processor/filters.py: the pre-filter by watched tickers and keywords.
use argus_core.Common.{
  ℕ, Bool, false, List, [], ◌∷◌, ◌++◌, map, Option, none, some, any, if◌then◌else◌,
}
use argus_core.Common.Text.{Text, codes, text_eq, contains}
use argus_core.Config.{WatchlistConfig, tickers_of}
use argus_core.Models.{RawEvent}
use argus_core.Unicode.{Unicode}

pub data Action : Type 0 where
  classify skip : Action

pub record PreFilterResult : Type 0 where
  pub action : Action
  pub score : ℕ

pub record WatchlistFilter : Type 0 where
  pub tickers : List Text
  pub keywords : List Text

-- `t in tickers`.
unfoldable pub member : Text → List Text → Bool
member t = any (text_eq t)

-- `event.ticker and event.ticker in self._tickers`.
pub watched : Option Text → List Text → Bool
unfolding member
watched none tickers = false
watched (some []) tickers = false
watched (some (c ∷ t)) tickers = member (c ∷ t) tickers

module _ (u : Unicode) where
  -- `WatchlistFilter.__init__`; `none` is the KeyError of an entry with no ticker.
  pub watchlist_filter : WatchlistConfig → Option WatchlistFilter
  watchlist_filter config = elim (tickers_of config.watchlist) [
    | none ↦ none
    | some tickers ↦ some (record { tickers = tickers; keywords = map u.lower config.keywords })
  ]

  -- `any(kw in text for kw in keywords)` over the lowered title and body.
  pub mentions : List Text → Text → Text → Bool
  mentions keywords title body =
      let text = u.lower (title ++ (codes " " ++ body)) in any (λ kw. contains kw text) keywords

  pub pre_filter : WatchlistFilter → RawEvent → PreFilterResult
  pre_filter f event =
      if watched event.ticker f.tickers
      then record { action = Action.classify; score = 80 }
      else if mentions f.keywords event.title event.body
      then record { action = Action.classify; score = 50 }
      else record { action = Action.skip; score = 0 }
