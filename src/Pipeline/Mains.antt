-- ===== src/Pipeline/Mains.antt =====
-- The `main` functions of src/argus/notifier/main.py, src/argus/processor/main.py, src/argus/rss_poller/main.py
-- and src/argus/sec_poller/main.py: what they call from the start to the end of a service, and in which
-- order. What a call does, and whether it raises, is a parameter. Pipeline.Wiring has the values that the
-- jobs are made with.
use mathlib.Core.Path.{subst}
use argus_core.Common.{ℕ, ◌||◌, Bool, true, List, [], ◌∷◌, ◌++◌, Bool-cases, inl, inr}
use argus_core.Common.Trace.{
  Ran, one_call, followed_by, try_finally, in_order, Course, in_order-Course, Course-whole,
  all_passed,
}
use argus_core.Config.Settings.{Settings, FeedsFile, poll_interval}

pub data Job : Type 0 where
  notifier_worker daily_digest form4_clusters processor_worker rss_feeds sec_filings : Job

-- `IntervalTrigger(seconds=...)`, `CronTrigger(hour="*", minute=...)` and `CronTrigger(hour=..., minute=...)`.
pub data Trigger : Type 0 where
  every hourly : ℕ → Trigger
  daily : ℕ → ℕ → Trigger

pub data Call : Type 0 where
  read_settings set_up_logging read_watchlist read_feeds : Call
  create_engine create_session_factory create_client create_provider : Call
  create_jobs create_scheduler : Call
  add_job : Job → Trigger → Call
  start_scheduler create_app : Call
  create_server : ℕ → Call
  serve shut_scheduler_down close_client dispose_engine : Call

-- What the `main` of each service calls above its `try`, in order. Its log lines are left out, and
-- `create_jobs` stands for the constructors of the objects whose methods the jobs are.
unfoldable pub notifier_set_up : Settings → List Call
notifier_set_up s =
    Call.read_settings
    ∷ Call.set_up_logging
    ∷ Call.read_watchlist
    ∷ Call.create_engine
    ∷ Call.create_session_factory
    ∷ Call.create_client
    ∷ Call.create_jobs
    ∷ Call.create_scheduler
    ∷ Call.add_job Job.notifier_worker (Trigger.every 15)
    ∷ Call.add_job Job.daily_digest (Trigger.daily s.digest_hour 0)
    ∷ Call.add_job Job.form4_clusters (Trigger.hourly 5)
    ∷ Call.start_scheduler
    ∷ Call.create_app
    ∷ Call.create_server s.health_port
    ∷ []

-- The HTTP client of the processor is the one of its provider.
unfoldable pub processor_set_up : Settings → List Call
processor_set_up s =
    Call.read_settings
    ∷ Call.set_up_logging
    ∷ Call.read_watchlist
    ∷ Call.create_engine
    ∷ Call.create_session_factory
    ∷ Call.create_provider
    ∷ Call.create_jobs
    ∷ Call.create_scheduler
    ∷ Call.add_job Job.processor_worker (Trigger.every 30)
    ∷ Call.start_scheduler
    ∷ Call.create_app
    ∷ Call.create_server s.health_port
    ∷ []

unfoldable pub rss_set_up : FeedsFile → Settings → List Call
unfolding poll_interval
rss_set_up file s =
    Call.read_settings
    ∷ Call.set_up_logging
    ∷ Call.read_watchlist
    ∷ Call.read_feeds
    ∷ Call.create_engine
    ∷ Call.create_session_factory
    ∷ Call.create_client
    ∷ Call.create_jobs
    ∷ Call.create_scheduler
    ∷ Call.add_job Job.rss_feeds (Trigger.every (poll_interval file))
    ∷ Call.start_scheduler
    ∷ Call.create_app
    ∷ Call.create_server s.health_port
    ∷ []

unfoldable pub sec_set_up : Settings → List Call
sec_set_up s =
    Call.read_settings
    ∷ Call.set_up_logging
    ∷ Call.read_watchlist
    ∷ Call.create_engine
    ∷ Call.create_session_factory
    ∷ Call.create_client
    ∷ Call.create_jobs
    ∷ Call.create_scheduler
    ∷ Call.add_job Job.sec_filings (Trigger.hourly 0)
    ∷ Call.start_scheduler
    ∷ Call.create_app
    ∷ Call.create_server s.health_port
    ∷ []

-- The `finally`.
abbrev pub clean_up : List Call
clean_up = Call.shut_scheduler_down ∷ Call.close_client ∷ Call.dispose_engine ∷ []

-- How a service ends. Either a call of the set-up raises, and nothing is called after it; or all of the
-- set-up is called, the server runs, and then the clean-up is called up to the first call that raises.
pub data Ended (set_up : List Call) : Bool → List (Call × Bool) → Type 0 where
  not_started : (calls : List (Call × Bool)) → Course set_up calls true → Ended set_up true calls
  served :
      (crashed raised : Bool) (closing : List (Call × Bool))
      → Course clean_up closing raised
      → Ended set_up (crashed || raised) (all_passed set_up ++ (Call.serve, crashed) ∷ closing)

module _ {W : Type 0} (perform : Call → W → W × Bool) where
  -- `main` after its set-up: `try: await server.serve() finally: ...`.
  unfoldable pub serve_after : List Call → W → Ran Call W
  unfolding followed_by try_finally one_call
  serve_after set_up =
      followed_by perform (in_order perform set_up)
        (try_finally perform (one_call perform Call.serve) (in_order perform clean_up))

  pub serve_after-Ended :
      (set_up : List Call) (w : W)
      → Ended set_up (serve_after set_up w).raised (serve_after set_up w).calls
  unfolding serve_after
  serve_after-Ended set_up w =
      let started = in_order perform set_up w in
      let course = in_order-Course perform set_up w in
      let served = perform Call.serve started.world in
      let closed = in_order perform clean_up served.0 in
      elim (Bool-cases started.raised) [
        | inl e ↦
            rw e (Ended.not_started started.calls (subst (Course set_up started.calls) e course))
        | inr e ↦
            let whole = Course-whole _ started.calls (subst (Course _ started.calls) e course) in
            rw (e, whole)
              (Ended.served served.1 closed.raised closed.calls
                (in_order-Course perform clean_up served.0))
      ]

  -- The four `main` functions.
  unfoldable pub notifier_main : Settings → W → Ran Call W
  notifier_main s = serve_after (notifier_set_up s)

  unfoldable pub processor_main : Settings → W → Ran Call W
  processor_main s = serve_after (processor_set_up s)

  unfoldable pub rss_main : FeedsFile → Settings → W → Ran Call W
  rss_main file s = serve_after (rss_set_up file s)

  unfoldable pub sec_main : Settings → W → Ran Call W
  sec_main s = serve_after (sec_set_up s)

  -- Whichever calls raise, each of the four main functions ends in one of two ways. Either a call
  -- of its set-up raises, it calls nothing after that, and it raises; or no call of its set-up
  -- raises, it makes all of them in order, runs the server, and then, whether the server raised
  -- or not, shuts the scheduler down, closes the client and disposes of the engine in this order,
  -- up to the first of these that raises, and it raises exactly if the server or one of these
  -- did.
  pub main-Ended :
      (s : Settings) (file : FeedsFile) (w : W)
      → Ended (notifier_set_up s) (notifier_main s w).raised (notifier_main s w).calls
        × Ended (processor_set_up s) (processor_main s w).raised (processor_main s w).calls
        × Ended (rss_set_up file s) (rss_main file s w).raised (rss_main file s w).calls
        × Ended (sec_set_up s) (sec_main s w).raised (sec_main s w).calls
  unfolding notifier_main processor_main rss_main sec_main
  main-Ended s file w = (
    serve_after-Ended (notifier_set_up s) w,
    serve_after-Ended (processor_set_up s) w,
    serve_after-Ended (rss_set_up file s) w,
    serve_after-Ended (sec_set_up s) w,
  )
