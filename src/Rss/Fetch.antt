-- ===== src/Rss/Fetch.antt =====
-- src/argus/rss_poller/pipeline.py: `fetch`, a GET under `with_retry`, and the run that starts with it.
-- What the feed answers to the n-th request, and what feedparser makes of the content, are parameters.
use mathlib.Core.Option as Option
use argus_core.Common.{ℕ, ◌≡◌, ◌≢◌, ◌⊎◌, inl, inr, refl, Option, some}
use argus_core.Common.Text.{Text}
use argus_core.Store.{Db}
use argus_core.Unicode.{Unicode}
use argus_core.Poll.{Sources}
use argus_core.Http.{Attempt, returned}
use argus_core.Http.Calls.{Decided, Ends, awaited, awaited-Ends}
use argus_core.Rss.Parser.{Parsed}
use argus_core.Rss.Pipeline.{RssPipeline, run}
use argus_core.Rss.Pipeline as Feeds

-- `fetch`: the bytes, or `none` for an exception.
unfoldable pub fetch : {B : Type 0} → (ℕ → ℕ) → (ℕ → Attempt B) → Option B
fetch jitter answers = awaited jitter answers

module _ {B W : Type 0} (u : Unicode) (sha256 : Text → Text) (jitter : ℕ → ℕ) (parse : B → Parsed)
    (p : RssPipeline) (env : Sources W) (answers : ℕ → Attempt B) where
  -- `run`, with the requests that its fetch makes.
  unfoldable pub poll : Db → W → Feeds.Ended u sha256 p W
  poll = run u sha256 p env (Option.map parse (fetch jitter answers))

  -- A run of an RSS pipeline makes at least one request for the feed and at most three. All but
  -- the last were answered with a retryable status. If the last one returned a content, the run
  -- is the run over that content; if not, the run returns 0 and leaves the database and the world
  -- as they were.
  pub poll-cases :
      (db : Db) (w : W)
      → (k : ℕ) × Decided jitter answers k
        × (((b : B) × (answers k ≡ returned b)
              × (poll db w ≡ run u sha256 p env (some (parse b)) db w))
            ⊎ (((b : B) → answers k ≢ returned b) × (poll db w ≡ Feeds.returned 0 db w)))
  unfolding poll fetch Ends
  poll-cases db w =
      let (k, decided, e) = awaited-Ends jitter answers in
      (
        k,
        decided,
        elim e [
          | inl (b, shown, got) ↦ inl (b, shown, rw got refl)
          | inr (never, got) ↦ inr (never, rw got (unfold run in refl))
        ],
      )
