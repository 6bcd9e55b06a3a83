-- ===== src/Rss/Pipeline/Commits.antt =====
-- What a run of src/argus/rss_poller/pipeline.py commits.
use argus_core.Common.{ℕ, ◌≡◌, sym, ap, List, Option, none, some, ◌⊎◌, inl, inr, Option-cases}
use argus_core.Common.Text.{Text}
use argus_core.Store.{Db}
use argus_core.Unicode.{Unicode}
use argus_core.Poll.{Inbox, Sources}
use argus_core.Rss.Parser.{Parsed, parse_feed, FeedItem}
use argus_core.Rss.Pipeline.{RssPipeline, Ended, returned, ingest, close, run}

-- The session of a run, and that its rows are committed and neither the notifications nor the LLM calls are touched.
pub record Committed {W : Type 0} (ended : List FeedItem → Option (Inbox W)) (db db' : Db)
    : Type 0 where
  pub items : List FeedItem
  pub session : Inbox W
  pub ends : ended items ≡ some session
  pub rows : db'.raw_events ≡ session.rows
  pub notes : db'.notifications ≡ db.notifications
  pub calls : db'.llm_calls ≡ db.llm_calls

module _ {W : Type 0} (u : Unicode) (sha256 : Text → Text) (p : RssPipeline) (env : Sources W) where
  ended_db :
      {m n : ℕ} {a b : Db} {v w : W}
      → ◌≡◌ {A = Ended u sha256 p W} (returned m a v) (returned n b w)
      → a ≡ b
  ended_db h = cc

  pub run-Committed :
      (fetched : Option Parsed) (n : ℕ) (db db' : Db) (w w' : W)
      → run u sha256 p env fetched db w ≡ returned n db' w'
      → (db ≡ db') ⊎ Committed (λ items. ingest u sha256 p env items db.raw_events w) db db'
  unfolding run close
  run-Committed none n db db' w w' h = inl (ended_db h)
  run-Committed (some parsed) n db db' w w' h =
      elim (Option-cases (ingest u sha256 p env (parse_feed parsed) db.raw_events w)) [
        | inl broken ↦ absurd (cc (rw broken at h))
        | inr (s, ends) ↦
            let same = ended_db (rw ends at h) in
            inr (record {
              items = parse_feed parsed;
              session = s;
              ends = ends;
              rows = sym (ap (λ x. x.raw_events) same);
              notes = sym (ap (λ x. x.notifications) same);
              calls = sym (ap (λ x. x.llm_calls) same);
            })
      ]
