-- ===== src/Lifecycle.antt =====
-- The life of a row of `raw_events`: the status column as a state machine, what a row of each
-- status carries, and what one run of a service may do to the table.
pub mod Bills
pub mod Drain
pub mod Ledger
pub mod Progress
pub mod Resolution
pub mod Rooted
use argus_core.Common.{ℕ, ◌≤◌, ◌<◌, ◌≡◌, refl, List, Option, none, some, arith}
use argus_core.Models.{Status, RawEvent}
use argus_core.Store.{find}

-- The edges that the services take.
pub data Moves : Status → Status → Type 0 where
  stay : (s : Status) → Moves s s
  classify : Moves Status.new Status.processed
  skip : Moves Status.new Status.skipped
  give_up : Moves Status.new Status.failed
  mark : Moves Status.new Status.duplicate
  deliver : Moves Status.processed Status.sent
  park : Moves Status.processed Status.failed

-- One run of a service on one row: the identity and the content stay, the status takes at most one
-- edge, and the retry counter never falls.
pub record Edge (r r' : RawEvent) : Type 0 where
  pub id : r'.id ≡ r.id
  pub source : r'.source ≡ r.source
  pub external_id : r'.external_id ≡ r.external_id
  pub ticker : r'.ticker ≡ r.ticker
  pub title : r'.title ≡ r.title
  pub body : r'.body ≡ r.body
  pub url : r'.url ≡ r.url
  pub fetched_at : r'.fetched_at ≡ r.fetched_at
  pub poller_meta : r'.poller_meta ≡ r.poller_meta
  pub moves : Moves r.status r'.status
  pub retries : r.retry_count ≤ r'.retry_count

pub Edge-refl : (r : RawEvent) → Edge r r
Edge-refl r = record {
  id = refl;
  source = refl;
  external_id = refl;
  ticker = refl;
  title = refl;
  body = refl;
  url = refl;
  fetched_at = refl;
  poller_meta = refl;
  moves = stay r.status;
  retries = omega arith;
}

-- Every row is still there and took at most one edge, and no row is new.
pub record Evolves (rows rows' : List RawEvent) : Type 0 where
  pub kept :
      (i : ℕ) (r : RawEvent)
      → find i rows ≡ some r
      → (r' : RawEvent) × (find i rows' ≡ some r') × Edge r r'
  pub none_new : (i : ℕ) → find i rows ≡ none → find i rows' ≡ none

abbrev pub ScoreInRange : Option ℕ → Type 0
ScoreInRange none = ⊥
ScoreInRange (some n) = n ≤ 100

abbrev pub Present : {A : Type 0} → Option A → Type 0
Present none = ⊥
Present (some _) = Unit

-- What a row of each status carries.
abbrev pub Carries : Status → RawEvent → Type 0
Carries Status.new r = (r.retry_count < 3) × (r.duplicate_of ≡ none) × (r.relevance_score ≡ none)
Carries Status.processed r =
    (r.retry_count < 3) × (r.duplicate_of ≡ none) × ScoreInRange r.relevance_score
Carries Status.sent r = (r.duplicate_of ≡ none) × ScoreInRange r.relevance_score × Present r.sent_at
Carries Status.duplicate r = Present r.duplicate_of
Carries Status.failed r = (3 ≤ r.retry_count) × (r.duplicate_of ≡ none)
Carries Status.skipped r = r.duplicate_of ≡ none

pub record RowValid (r : RawEvent) : Type 0 where
  pub carries : Carries r.status r
