-- ===== src/Processor/Classifier/Laws.antt =====
-- The branches of `Classifier.classify` of src/argus/processor/classifier.py.
use mathlib.Core.Path.{subst}
use argus_core.Common.{
  ℕ, ◌+◌, ◌≤◌, ◌≡◌, refl, Bool, true, false, arith, tests, leb, if◌then◌else◌, Bool-cases, inl, inr,
}
use argus_core.Common.Text.{Text}
use argus_core.Models.{Status, status_eq, RawEvent}
use argus_core.Store.{Db, add_llm_call}
use argus_core.Unicode.{Unicode}
use argus_core.Llm.{ClassifyResult, Reply, answer, failure, LlmProvider, IsProvider}
use argus_core.Lifecycle.Bills.{Recorded}
use argus_core.Lifecycle.{Moves, stay, skip, give_up, Carries, Edge, RowValid}
use argus_core.Processor.Filters.{Action, WatchlistFilter, pre_filter}
use argus_core.Processor.Classifier.{
  Call, billed, llm_failed, classified, call_of, conclude, dispatch, classify,
}

moves_of_failure : (b : Bool) → Moves Status.new (if b then Status.failed else Status.new)
moves_of_failure true = give_up
moves_of_failure false = stay Status.new

abbrev IsNew : RawEvent → Type 0
IsNew e = e.status ≡ Status.new

skipped-Edge : (e : RawEvent) → IsNew e → Edge e (record e { status = Status.skipped })
skipped-Edge e h = record {
  id = refl;
  source = refl;
  external_id = refl;
  ticker = refl;
  title = refl;
  body = refl;
  url = refl;
  fetched_at = refl;
  poller_meta = refl;
  moves = rw h skip;
  retries = omega arith;
}

classified-Edge : (r : ClassifyResult) (t : ℕ) (e : RawEvent) → IsNew e → Edge e (classified r t e)
unfolding classified
classified-Edge r t e h = record {
  id = refl;
  source = refl;
  external_id = refl;
  ticker = refl;
  title = refl;
  body = refl;
  url = refl;
  fetched_at = refl;
  poller_meta = refl;
  moves = rw h Moves.classify;
  retries = omega arith;
}

llm_failed-Edge : (m : Text) (e : RawEvent) → IsNew e → Edge e (llm_failed m e)
unfolding llm_failed
llm_failed-Edge m e h = record {
  id = refl;
  source = refl;
  external_id = refl;
  ticker = refl;
  title = refl;
  body = refl;
  url = refl;
  fetched_at = refl;
  poller_meta = refl;
  moves = rw h (moves_of_failure (leb 3 (e.retry_count + 1)));
  retries = omega arith;
}

carried : (e : RawEvent) → IsNew e → RowValid e → Carries Status.new e
carried e h v = subst (λ s. Carries s e) h v.carries

llm_failed-RowValid : (m : Text) (e : RawEvent) → IsNew e → RowValid e → RowValid (llm_failed m e)
unfolding llm_failed
llm_failed-RowValid m e h v =
    let (few, original, unscored) = carried e h v in
    elim (Bool-cases (leb 3 (e.retry_count + 1))) [
      | inl last ↦ record { carries = rw last (omega tests, original) }
      | inr again ↦ record { carries = rw again (ground arith, original, unscored) }
    ]

classified-RowValid :
    (r : ClassifyResult) (t : ℕ) (e : RawEvent)
    → r.classification.relevance_score ≤ 100
    → IsNew e
    → RowValid e
    → RowValid (classified r t e)
unfolding classified
classified-RowValid r t e good h v =
    let (few, original, _) = carried e h v in record { carries = (few, original, good) }

status_of_retry :
    (b : Bool) → status_eq (if b then Status.failed else Status.new) Status.processed ≡ false
status_of_retry true = refl
status_of_retry false = refl

module _ {W : Type 0} (u : Unicode) (now : W → ℕ × W) (filter : WatchlistFilter)
    (llm : LlmProvider W) where
  -- What a call did, in one record, so that each branch is proved once.
  pub record Conduct (e : RawEvent) (db : Db) (c : Call W) : Type 0 where
    pub quiet : c.raised ≡ false
    pub same_rows : c.db.raw_events ≡ db.raw_events
    pub same_notifications : c.db.notifications ≡ db.notifications
    pub recorded : Recorded e c.event db.llm_calls c.db.llm_calls (billed c)
    pub same_original : c.event.duplicate_of ≡ e.duplicate_of

  conclude-Conduct :
      (r : Reply) (e : RawEvent) (db : Db) (w : W)
      → Conduct e db (conclude u now filter llm r e db w)
  unfolding conclude add_llm_call
  conclude-Conduct (failure m) e db w = record {
    quiet = refl;
    same_rows = refl;
    same_notifications = refl;
    recorded =
        unfold llm_failed in
        rw (status_of_retry (leb 3 (e.retry_count + 1))) (Recorded.nothing refl refl);
    same_original = unfold llm_failed in refl;
  }
  conclude-Conduct (answer r) e db w = record {
    quiet = refl;
    same_rows = refl;
    same_notifications = refl;
    recorded =
        unfold classified in
        Recorded.one (call_of r e) r.classification.relevance_score refl refl refl;
    same_original = unfold classified in refl;
  }

  dispatch-Conduct :
      (a : Action) (e : RawEvent) (db : Db) (w : W)
      → Conduct e db (dispatch u now filter llm a e db w)
  unfolding dispatch
  dispatch-Conduct Action.skip e db w = record {
    quiet = refl;
    same_rows = refl;
    same_notifications = refl;
    recorded = Recorded.nothing refl refl;
    same_original = refl;
  }
  dispatch-Conduct Action.classify e db w =
      let (reply, w') = llm.classify e w in conclude-Conduct reply e db w'

  pub classify-Conduct :
      (e : RawEvent) (db : Db) (w : W) → Conduct e db (classify u now filter llm e db w)
  unfolding classify
  classify-Conduct e db w = dispatch-Conduct (pre_filter u filter e).action e db w

  conclude-Edge :
      (r : Reply) (e : RawEvent) (db : Db) (w : W)
      → IsNew e
      → Edge e (conclude u now filter llm r e db w).event
  unfolding conclude
  conclude-Edge (failure m) e db w = llm_failed-Edge m e
  conclude-Edge (answer r) e db w = classified-Edge r (now w).0 e

  dispatch-Edge :
      (a : Action) (e : RawEvent) (db : Db) (w : W)
      → IsNew e
      → Edge e (dispatch u now filter llm a e db w).event
  unfolding dispatch
  dispatch-Edge Action.skip e db w = skipped-Edge e
  dispatch-Edge Action.classify e db w =
      let (reply, w') = llm.classify e w in conclude-Edge reply e db w'

  -- A call of the classifier on a new event takes it along at most one edge of the life cycle and
  -- does not touch its `duplicate_of`; the call never raises, leaves the table of events and the
  -- notifications as they are, and either the event ends as processed, with a score, and one LLM
  -- call is recorded, which is about it, or none is recorded and the score stays.
  pub classify_lem :
      (e : RawEvent) (db : Db) (w : W)
      → IsNew e
      → Edge e (classify u now filter llm e db w).event
        × Conduct e db (classify u now filter llm e db w)
  unfolding classify
  classify_lem e db w h = (
    dispatch-Edge (pre_filter u filter e).action e db w h,
    dispatch-Conduct (pre_filter u filter e).action e db w,
  )

  conclude-RowValid :
      (r : Reply) (e : RawEvent) (db : Db) (w : W)
      → ((a : ClassifyResult) → r ≡ answer a → a.classification.relevance_score ≤ 100)
      → IsNew e
      → RowValid e
      → RowValid (conclude u now filter llm r e db w).event
  unfolding conclude
  conclude-RowValid (failure m) e db w good h v = llm_failed-RowValid m e h v
  conclude-RowValid (answer r) e db w good h v = classified-RowValid r (now w).0 e (good r refl) h v

  module _ (p : IsProvider llm) where
    dispatch-RowValid :
        (a : Action) (e : RawEvent) (db : Db) (w : W)
        → IsNew e
        → RowValid e
        → RowValid (dispatch u now filter llm a e db w).event
    unfolding dispatch
    dispatch-RowValid Action.skip e db w h v = record { carries = (carried e h v).1 }
    dispatch-RowValid Action.classify e db w h v =
        let (reply, w') = llm.classify e w in
        conclude-RowValid reply e db w' (λ r a. (p.validated e w r a).in_range) h v

    pub classify-RowValid :
        (e : RawEvent) (db : Db) (w : W)
        → IsNew e
        → RowValid e
        → RowValid (classify u now filter llm e db w).event
    unfolding classify
    classify-RowValid e db w = dispatch-RowValid (pre_filter u filter e).action e db w
