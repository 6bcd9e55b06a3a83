-- ===== src/Pipeline/Waiting.antt =====
-- An event that waits for the digest (src/argus/notifier/digest.py), while the jobs of the services run.
use argus_core.Common.{
  ℕ, ◌≤◌, ◌<◌, ◌≡◌, refl, sym, ap, ◌∙◌, Bool, true, false, not, ◌&&◌, List, ◌++◌, some, arith,
  Bool-cases, inl, inr,
}
use mathlib.Core.Path.{subst}
use argus_core.Models.{Status, status_eq, RawEvent}
use argus_core.Store.{Db, find}
use argus_core.Lifecycle.{Moves, stay, classify, skip, give_up, mark, deliver, park, Evolves}
use argus_core.Lifecycle.Rooted.{find-append}
use argus_core.Llm.{IsProvider}
use argus_core.Processor.Classifier as Judging
use argus_core.Processor.Worker.Run as Processing
use argus_core.Processor.Worker.Service.{search_duplicate, processor_run, classify-IsClassifier}
use argus_core.Notifier.Worker as Instant
use argus_core.Notifier.Worker.{delivered, selected}
use argus_core.Notifier.Worker.Run as Notifying
use argus_core.Notifier.Digest.{run_once}
use argus_core.Notifier.Digest.Run.{answer, result-Evolves, result-picked, result-unpicked}
use argus_core.Notifier.Digest.Laws.{in_digest-free}
use argus_core.Notifier.Form4Cluster.Alerts.{run_once_atomic}
use argus_core.Rss.Pipeline.Runs as FeedRuns
use argus_core.Rss.Pipeline.Commits.{run-Committed}
use argus_core.Sec.Pipeline.Commits as FilingCommits
use argus_core.Sec.Pipeline.Runs as FilingRuns
use argus_core.Pipeline.{Deployment, Step, process, notify, digest, alert, read_feed, read_filings}
use argus_core.Pipeline.Consistency.{Consistent, step-Consistent}

-- Steps from one database to another.
pub data Later {W : Type 0} (d : Deployment W) (db : Db) : Db → Type 0 where
  now : Later d db db
  later : (a b : Db) → Later d db a → Step d a b → Later d db b

-- An event that was `r` waits as it was, or has been sent.
data Fate (r : RawEvent) (rows : List RawEvent) : Type 0 where
  waiting : find r.id rows ≡ some r → Fate r rows
  sent : (r' : RawEvent) → find r.id rows ≡ some r' → r'.status ≡ Status.sent → Fate r rows

still_sent : (s t : Status) → Moves s t → s ≡ Status.sent → t ≡ Status.sent
still_sent s t (stay x) h = h
still_sent s t classify h = absurd (cc)
still_sent s t skip h = absurd (cc)
still_sent s t give_up h = absurd (cc)
still_sent s t mark h = absurd (cc)
still_sent s t deliver h = refl
still_sent s t park h = absurd (cc)

-- A sent event stays sent in a table that evolves.
sent-Evolves :
    (r r' : RawEvent) (rows rows' : List RawEvent)
    → Evolves rows rows'
    → find r.id rows ≡ some r'
    → r'.status ≡ Status.sent
    → Fate r rows'
sent-Evolves r r' rows rows' ev there h =
    let (r'', found, edge) = ev.kept r.id r' there in
    sent r'' found (still_sent r'.status r''.status edge.moves h)

Fate-append : (r : RawEvent) (rows added : List RawEvent) → Fate r rows → Fate r (rows ++ added)
Fate-append r rows added (waiting there) = waiting (find-append r.id rows added r there)
Fate-append r rows added (sent r' there h) = sent r' (find-append r.id rows added r' there) h

not_new :
    (r : RawEvent) (b : Bool)
    → r.status ≡ Status.processed
    → (status_eq r.status Status.new && b) ≡ false
not_new r b h = rw h refl

module _ {W : Type 0} (d : Deployment W) (provider : IsProvider d.llm) (r : RawEvent) (n : ℕ)
    (processed : r.status ≡ Status.processed) (score : r.relevance_score ≡ some n)
    (enough : d.min_relevance_score ≤ n) (low : n < d.instant_score) where
  not_instant : (locked : ℕ → Bool) → selected d.instant_score locked r ≡ false
  unfolding selected
  not_instant locked = ground arith

  process-Fate :
      (size : ℕ) (locked : ℕ → Bool) (w : W) (db : Db)
      → Consistent db
      → Fate r db.raw_events
      → Fate r (processor_run d.unicode d.now d.watchlist d.llm size locked db w).db.raw_events
  unfolding processor_run
  process-Fate size locked w db c f =
      let search = search_duplicate d.unicode d.now in
      let judge = Judging.classify d.unicode d.now d.watchlist d.llm in
      let contract = classify-IsClassifier d.unicode d.now d.watchlist d.llm provider in
      elim f [
        | waiting there ↦ waiting (
            Processing.run_once-unpicked search judge contract size locked db w r.id r c.distinct
              there (not_new r (not (locked r.id)) processed))
        | sent r' there h ↦
            sent-Evolves r r' db.raw_events _
              (Processing.run_once-Evolves search judge contract size locked db w c.distinct) there
              h
      ]

  notify-Fate :
      (size : ℕ) (locked : ℕ → Bool) (w : W) (db : Db)
      → Consistent db
      → Fate r db.raw_events
      → Fate r
          (Instant.run_once d.fmt d.now d.discord size d.instant_score locked db w).db.raw_events
  notify-Fate size locked w db c (waiting there) = waiting (
      Notifying.run_once-unpicked d.fmt d.now d.discord size d.instant_score locked db w r.id r
        c.distinct there (not_instant locked))
  notify-Fate size locked w db c (sent r' there h) =
      sent-Evolves r r' db.raw_events _
        (Notifying.run_once-Evolves d.fmt d.now d.discord size d.instant_score locked db w
          c.distinct)
        there h

  module _ (locked : ℕ → Bool) (w : W) (db : Db) (c : Consistent db) where
    digest-Fate :
        Fate r db.raw_events
        → Fate r
            (run_once d.now d.discord d.min_relevance_score d.instant_score locked db
              w).db.raw_events
    digest-Fate (sent r' there h) =
        sent-Evolves r r' db.raw_events _
          (result-Evolves d.now d.discord d.min_relevance_score d.instant_score locked db w
            c.distinct)
          there h
    digest-Fate (waiting there) =
        let free =
          in_digest-free d.min_relevance_score d.instant_score n locked r processed score enough
            low in
        elim (Bool-cases (locked r.id)) [
          | inl taken ↦ waiting (
              result-unpicked d.now d.discord d.min_relevance_score d.instant_score locked db w
                c.distinct r.id r there (free ∙ ap not taken))
          | inr unlocked ↦
              elim (result-picked d.now d.discord d.min_relevance_score d.instant_score locked db w
                c.distinct r.id r there (free ∙ ap not unlocked)) [
                  | inl (_, same) ↦ waiting same
                  | inr (t, marked) ↦ sent (delivered t r) marked (unfold delivered in refl)
                ]
        ]

    digest_sends :
        locked r.id ≡ false
        → answer d.now d.discord d.min_relevance_score d.instant_score locked db w ≡ true
        → Fate r db.raw_events
        → let result = run_once d.now d.discord d.min_relevance_score d.instant_score locked db w in
          (r' : RawEvent) × (find r.id result.db.raw_events ≡ some r') × (r'.status ≡ Status.sent)
    digest_sends unlocked accepted (sent r' there h) =
        let ev =
          result-Evolves d.now d.discord d.min_relevance_score d.instant_score locked db w
            c.distinct in
        let (r'', found, edge) = ev.kept r.id r' there in
        (r'', found, still_sent r'.status r''.status edge.moves h)
    digest_sends unlocked accepted (waiting there) =
        let free =
          in_digest-free d.min_relevance_score d.instant_score n locked r processed score enough
            low in
        elim (result-picked d.now d.discord d.min_relevance_score d.instant_score locked db w
          c.distinct r.id r there (free ∙ ap not unlocked)) [
            | inl (refused, _) ↦ absurd (cc (refused, accepted))
            | inr (t, marked) ↦ (delivered t r, marked, unfold delivered in refl)
          ]

  step-Fate :
      (db db' : Db) → Step d db db' → Consistent db → Fate r db.raw_events → Fate r db'.raw_events
  step-Fate db db' (process size locked w e) c f =
      subst (λ x. Fate r x.raw_events) (sym e) (process-Fate size locked w db c f)
  step-Fate db db' (notify size locked w e) c f =
      subst (λ x. Fate r x.raw_events) (sym e) (notify-Fate size locked w db c f)
  step-Fate db db' (digest locked w e) c f =
      subst (λ x. Fate r x.raw_events) (sym e) (digest-Fate locked w db c f)
  step-Fate db db' (alert w e) c f =
      elim (run_once_atomic d.surroundings d.window_h d.min_filings db w) [
        | inl (_, _, same) ↦ subst (λ x. Fate r x.raw_events) (sym (e ∙ same)) f
        | inr (_, _, same) ↦ subst (λ x. Fate r x.raw_events) (sym (e ∙ same)) f
      ]
  step-Fate db db' (read_feed p fetched k w w' e) c f =
      elim (run-Committed d.unicode d.sha256 p d.sources fetched k db db' w w' e) [
        | inl same ↦ subst (λ x. Fate r x.raw_events) same f
        | inr s ↦
            let ins =
              FeedRuns.ingest-Inserted d.unicode d.sha256 p d.sources s.items db.raw_events w
                s.session s.ends c.distinct c.unique in
            subst (Fate r) (sym (s.rows ∙ ins.appended)) (Fate-append r db.raw_events ins.added f)
      ]
  step-Fate db db' (read_filings urls since k w w' e) c f =
      let s =
        FilingCommits.run-Committed d.unicode d.numerals d.form4_filter d.sec urls since k db db' w
          w' e in
      let ins =
        FilingRuns.ingest-Inserted d.unicode d.numerals d.form4_filter d.sec s.urls db.raw_events w
          s.session s.ends c.distinct c.unique in
      subst (Fate r) (sym (s.rows ∙ ins.appended)) (Fate-append r db.raw_events ins.added f)

  -- What holds from one database to a later one.
  Later-Fate :
      (db db' : Db)
      → Later d db db'
      → Consistent db × Fate r db.raw_events
      → Consistent db' × Fate r db'.raw_events
  Later-Fate db db' now h = h
  Later-Fate db db' (later a b l s) h =
      let (c, f) = Later-Fate db a l h in (step-Consistent d provider a b s c, step-Fate a b s c f)

  -- The LLM provider validates its results. In a database that is consistent, as every reachable
  -- one is, an event is processed with a score of the band of the digest: at least the minimum
  -- and below the score of the instant alerts. The jobs of the services then run in any order and
  -- number, the digest among them, whatever Discord answers. If after that the digest runs, no
  -- other run has locked the event, and Discord accepts, then the event is sent at the end.
  pub digest_sends_waiting :
      (db db' : Db) (locked : ℕ → Bool) (w : W)
      → Consistent db
      → find r.id db.raw_events ≡ some r
      → Later d db db'
      → locked r.id ≡ false
      → answer d.now d.discord d.min_relevance_score d.instant_score locked db' w ≡ true
      → let result = run_once d.now d.discord d.min_relevance_score d.instant_score locked db' w in
        (r' : RawEvent) × (find r.id result.db.raw_events ≡ some r') × (r'.status ≡ Status.sent)
  digest_sends_waiting db db' locked w c there l unlocked accepted =
      let (c', f) = Later-Fate db db' l (c, waiting there) in
      digest_sends locked w db' c' unlocked accepted f
