-- ===== src/Sec/Pipeline/Commits.antt =====
-- What a run of src/argus/sec_poller/pipeline.py commits.
use argus_core.Common.{ℕ, ◌≡◌, sym, ap, List, Option, none, some, inl, inr, Option-cases}
use argus_core.Common.Text.{Text}
use argus_core.Store.{Db}
use argus_core.Unicode.{Unicode}
use argus_core.Poll.{Inbox}
use argus_core.Sec.Edgar.{Numerals}
use argus_core.Sec.Pipeline.{Form4Filter, SecEnv, Ended, returned, ingest, close, run}

-- The session of a run, and that its rows are committed and neither the notifications nor the LLM calls are touched.
pub record Committed {W : Type 0} (ended : List Text → Option (Inbox W)) (db db' : Db)
    : Type 0 where
  pub urls : List Text
  pub session : Inbox W
  pub ends : ended urls ≡ some session
  pub rows : db'.raw_events ≡ session.rows
  pub notes : db'.notifications ≡ db.notifications
  pub calls : db'.llm_calls ≡ db.llm_calls

module _ {W : Type 0} (u : Unicode) (numerals : Numerals) (filter : Form4Filter)
    (env : SecEnv W) where
  ended_db :
      {m n : ℕ} {a b : Db} {v w : W}
      → ◌≡◌ {A = Ended u numerals filter env} (returned m a v) (returned n b w)
      → a ≡ b
  ended_db h = cc

  pub run-Committed :
      (urls : Option (List Text)) (since : Text) (n : ℕ) (db db' : Db) (w w' : W)
      → run u numerals filter env urls since db w ≡ returned n db' w'
      → Committed (λ us. ingest u numerals filter env us db.raw_events w) db db'
  unfolding run close
  run-Committed none since n db db' w w' h = absurd (cc)
  run-Committed (some urls) since n db db' w w' h =
      elim (Option-cases (ingest u numerals filter env urls db.raw_events w)) [
        | inl broken ↦ absurd (cc (rw broken at h))
        | inr (s, ends) ↦
            let same = ended_db (rw ends at h) in
            record {
              urls = urls;
              session = s;
              ends = ends;
              rows = sym (ap (λ x. x.raw_events) same);
              notes = sym (ap (λ x. x.notifications) same);
              calls = sym (ap (λ x. x.llm_calls) same);
            }
      ]
