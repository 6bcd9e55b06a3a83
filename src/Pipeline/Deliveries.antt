-- ===== src/Pipeline/Deliveries.antt =====
-- The services of src/argus over time, with commits of the notifier that may fail: what Discord was told of
-- before an event counts as sent.
use argus_core.Common.{
  ℕ, ◌≡◌, ◌≢◌, refl, sym, ◌∙◌, Bool, true, List, ◌⊎◌, inl, inr, ◌==◌, Bool-cases, All, All-map,
  All-append, ◌++◌,
}
use mathlib.Core.Path.{subst}
use argus_core.Models.{Status, status_eq, RawEvent}
use argus_core.Store.{Db, empty}
use argus_core.Llm.{IsProvider}
use argus_core.Processor.Worker.Service.{processor_run, search_duplicate, classify-IsClassifier}
use argus_core.Processor.Worker.Deliveries.{run_once-unsent}
use argus_core.Processor.Classifier.{classify}
use argus_core.Notifier.Commits.{committed, instant_run, digest_run, Log}
use argus_core.Notifier.Commits.Announced.{
  unsent, Told, Covered, Announced, Later, Announced-Later, instant_run-Announced,
  digest_run-Announced,
}
use argus_core.Notifier.Worker as Instant
use argus_core.Notifier.Digest as Daily
use argus_core.Notifier.Form4Cluster.Alerts.{run_once_atomic}
use argus_core.Rss.Pipeline.Commits.{run-Committed}
use argus_core.Poll.Inserts.{Fresh}
use argus_core.Rss.Pipeline.Runs as FeedRuns
use argus_core.Sec.Pipeline.Runs as FilingRuns
use argus_core.Sec.Pipeline.Commits as FilingCommits
use argus_core.Pipeline.{
  Deployment, Step, process, notify, digest, alert, read_feed, read_filings, Reachable, start, next,
}
use argus_core.Pipeline.Consistency.{Consistent, Reachable-Consistent}

is_sent : (s : Status) → status_eq s Status.sent ≡ true → s ≡ Status.sent
is_sent Status.new h = absurd (cc)
is_sent Status.processed h = absurd (cc)
is_sent Status.sent h = refl
is_sent Status.skipped h = absurd (cc)
is_sent Status.duplicate h = absurd (cc)
is_sent Status.failed h = absurd (cc)

-- A step of another service than the notifier's two jobs for events.
abbrev pub IsOther : {W : Type 0} {d : Deployment W} {a b : Db} → Step d a b → Type 0
IsOther (process _ _ _ _) = Unit {0}
IsOther (notify _ _ _ _) = ⊥
IsOther (digest _ _ _) = ⊥
IsOther (alert _ _) = Unit {0}
IsOther (read_feed _ _ _ _ _ _) = Unit {0}
IsOther (read_filings _ _ _ _ _ _) = Unit {0}

module _ {W : Type 0} (d : Deployment W) (commit : W → Bool × W)
    (log : Log d.fmt d.now d.discord commit) where
  abbrev after_instant : ℕ → (ℕ → Bool) → Db × W → Db × W
  after_instant size locked (db, w) =
      instant_run d.fmt d.now d.discord commit size d.instant_score locked db w

  abbrev after_digest : (ℕ → Bool) → Db × W → Db × W
  after_digest locked (db, w) =
      digest_run d.fmt d.now d.discord commit d.min_relevance_score d.instant_score locked db w

  -- What can have happened since the empty database. Discord forgets nothing that it has accepted.
  pub data History : Db × W → Type 0 where
    begin : (w : W) → History (empty, w)
    instant :
        (x : Db × W) (size : ℕ) (locked : ℕ → Bool)
        → History x
        → History (after_instant size locked x)
    summary : (x : Db × W) (locked : ℕ → Bool) → History x → History (after_digest locked x)
    other :
        (db db' : Db) (w w' : W) (s : Step d db db')
        → IsOther s
        → Later d.fmt d.now d.discord commit log w w'
        → History (db, w)
        → History (db', w')

  -- An event that is not marked as sent, or one that Discord was told of.
  pub data Accounted (w : W) (r : RawEvent) : Type 0 where
    not_sent : r.status ≢ Status.sent → Accounted w r
    told : Told d.fmt d.now d.discord commit log w r → Accounted w r

  -- A new event is not sent.
  added-Announced :
      (w : W) (rows added rows' : List RawEvent)
      → rows' ≡ rows ++ added
      → All Fresh added
      → Announced d.fmt d.now d.discord commit log w rows
      → Announced d.fmt d.now d.discord commit log w rows'
  added-Announced w rows added rows' e fresh a =
      subst (Announced d.fmt d.now d.discord commit log w) (sym e) (
        All-append (Covered d.fmt d.now d.discord commit log w) rows added a
          (All-map (λ r f s. absurd (cc (f.0, s))) added fresh))

  -- The other jobs mark no event as sent.
  other-Announced :
      IsProvider d.llm
      → (db db' : Db) (s : Step d db db') → IsOther s
      → Consistent db
      → (w : W) → Announced d.fmt d.now d.discord commit log w db.raw_events
      → Announced d.fmt d.now d.discord commit log w db'.raw_events
  unfolding processor_run
  other-Announced provider db db' (process size locked v e) o c w a =
      subst (λ x. Announced d.fmt d.now d.discord commit log w x.raw_events) (sym e)
        (run_once-unsent (search_duplicate d.unicode d.now)
          (classify d.unicode d.now d.watchlist d.llm)
          (classify-IsClassifier d.unicode d.now d.watchlist d.llm provider) size locked db v
          c.distinct (Covered d.fmt d.now d.discord commit log w)
          (λ r quiet s. absurd (unsent r.status quiet s)) a)
  other-Announced provider db db' (notify _ _ _ _) o c w a = absurd o
  other-Announced provider db db' (digest _ _ _) o c w a = absurd o
  other-Announced provider db db' (alert v e) o c w a =
      elim (run_once_atomic d.surroundings d.window_h d.min_filings db v) [
        | inl (_, _, same) ↦
            subst (λ x. Announced d.fmt d.now d.discord commit log w x.raw_events) (sym (e ∙ same))
              a
        | inr (_, _, same) ↦
            subst (λ x. Announced d.fmt d.now d.discord commit log w x.raw_events) (sym (e ∙ same))
              a
      ]
  other-Announced provider db db' (read_feed p fetched n v v' e) o c w a =
      elim (run-Committed d.unicode d.sha256 p d.sources fetched n db db' v v' e) [
        | inl same ↦ subst (λ x. Announced d.fmt d.now d.discord commit log w x.raw_events) same a
        | inr k ↦
            let ins =
              FeedRuns.ingest-Inserted d.unicode d.sha256 p d.sources k.items db.raw_events v
                k.session k.ends c.distinct c.unique in
            added-Announced w db.raw_events ins.added db'.raw_events (k.rows ∙ ins.appended)
              ins.all_fresh a
      ]
  other-Announced provider db db' (read_filings urls since n v v' e) o c w a =
      let k =
        FilingCommits.run-Committed d.unicode d.numerals d.form4_filter d.sec urls since n db db' v
          v' e in
      let ins =
        FilingRuns.ingest-Inserted d.unicode d.numerals d.form4_filter d.sec k.urls db.raw_events v
          k.session k.ends c.distinct c.unique in
      added-Announced w db.raw_events ins.added db'.raw_events (k.rows ∙ ins.appended) ins.all_fresh
        a

  committed_either :
      (after before : Db) (w : W)
      → let (db', _) = committed d.fmt d.now d.discord commit after before w in
        (db' ≡ after) ⊎ (db' ≡ before)
  unfolding committed
  committed_either after before w = elim (Bool-cases (commit w).0) [
    | inl ok ↦ inl (rw ok refl)
    | inr lost ↦ inr (rw lost refl)
  ]

  -- A commit that fails undoes the step.
  History-Reachable : (x : Db × W) → History x → Reachable d x.0
  unfolding instant_run digest_run
  History-Reachable _ (History.begin w) = start
  History-Reachable _ (History.instant (db, w) size locked h) =
      let s = Instant.run_once d.fmt d.now d.discord size d.instant_score locked db w in
      let r = History-Reachable (db, w) h in
      elim (committed_either s.db db s.world) [
        | inl e ↦ next db _ r (notify size locked w e)
        | inr e ↦ subst (Reachable d) (sym e) r
      ]
  History-Reachable _ (History.summary (db, w) locked h) =
      let s = Daily.run_once d.now d.discord d.min_relevance_score d.instant_score locked db w in
      let r = History-Reachable (db, w) h in
      elim (Bool-cases (s.returned == 0)) [
        | inl early ↦ rw early (next db _ r (digest locked w refl))
        | inr late ↦ elim (committed_either s.db db s.world) [
          | inl e ↦ rw late (next db _ r (digest locked w e))
          | inr e ↦ rw late (subst (Reachable d) (sym e) r)
        ]
      ]
  History-Reachable _ (History.other db db' w w' s _ _ h) =
      next db db' (History-Reachable (db, w) h) s

  History-Announced :
      IsProvider d.llm
      → (x : Db × W) → History x
      → Announced d.fmt d.now d.discord commit log x.1 x.0.raw_events
  History-Announced provider _ (History.begin w) = tt
  History-Announced provider _ (History.instant (db, w) size locked h) =
      instant_run-Announced d.fmt d.now d.discord commit log locked db w
        (History-Announced provider (db, w) h) size d.instant_score
  History-Announced provider _ (History.summary (db, w) locked h) =
      digest_run-Announced d.fmt d.now d.discord commit log locked db w
        (History-Announced provider (db, w) h) d.min_relevance_score d.instant_score
  History-Announced provider _ (History.other db db' w w' s o l h) =
      other-Announced provider db db' s o
        (Reachable-Consistent d provider db (History-Reachable (db, w) h)) w'
        (Announced-Later d.fmt d.now d.discord commit log w w' db.raw_events l
          (History-Announced provider (db, w) h))

  accounted : (w : W) (r : RawEvent) → Covered d.fmt d.now d.discord commit log w r → Accounted w r
  accounted w r covered = elim (Bool-cases (status_eq r.status Status.sent)) [
    | inl h ↦ Accounted.told (covered (is_sent r.status h))
    | inr h ↦ Accounted.not_sent (unsent r.status h)
  ]

  -- The LLM provider validates its results. From the empty database, runs of the notifier and of
  -- the digest, each of which ends with a commit that may fail and undo it, and the other jobs of
  -- the services are run in any order, and Discord forgets nothing that it has accepted. Then
  -- each event of the table is not marked as sent, or Discord has accepted the alert made from
  -- this event, or a digest with this event among its events, where the row is the event that the
  -- message was made from, with its status sent and the time of the delivery and nothing else
  -- changed.
  pub at_least_once :
      IsProvider d.llm → (x : Db × W) → History x → All (Accounted x.1) x.0.raw_events
  at_least_once provider x h =
      All-map (accounted x.1) x.0.raw_events (History-Announced provider x h)
