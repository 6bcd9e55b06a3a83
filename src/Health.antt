-- ===== src/Health.antt =====
-- src/argus/common/health.py: the time of the last run, the wrapper that notes it, and the health
-- endpoint; and `ping`, which the main.py files hand to it.
use argus_core.Common.{ℕ, Bool, true, false, ◌&&◌, Option, none, some, if◌then◌else◌}
use argus_core.Common.Text.{Text}

-- `LastRunTracker`: the ISO time of the last run.
pub record LastRunTracker : Type 0 where
  pub iso : Option Text

pub new_tracker : LastRunTracker
new_tracker = record { iso = none }

-- `mark`, at the time that `datetime.now(UTC).isoformat()` reads.
unfoldable pub mark : Text → LastRunTracker → LastRunTracker
mark now t = record { iso = some now }

-- How a job ended.
pub data Outcome (A : Type 0) : Type 0 where
  result : A → Outcome A
  error : Outcome A

module _ {A W : Type 0} (isoformat : W → Text × W) where
  noted : Outcome A → LastRunTracker → W → Outcome A × LastRunTracker × W
  unfolding mark
  noted error t w = (error, t, w)
  noted (result a) t w = let (now, w') = isoformat w in (result a, mark now t, w')

  -- `tracked(job, tracker)`: an exception of the job passes by the mark.
  unfoldable pub tracked : (W → Outcome A × W) → LastRunTracker → W → Outcome A × LastRunTracker × W
  unfolding noted
  tracked job t w = let (o, w') = job w in noted o t w'

-- `ping`: whether `SELECT 1` ended without an exception.
unfoldable pub ping : Outcome Unit → Bool
ping (result _) = true
ping error = false

-- The answer of `/healthz`.
pub record HealthResponse : Type 0 where
  pub db : Bool
  pub scheduler : Bool
  pub last_run : Option Text
  pub status_code : ℕ

unfoldable pub healthz : Bool → Bool → LastRunTracker → HealthResponse
healthz db_ping scheduler_running t = record {
  db = db_ping;
  scheduler = scheduler_running;
  last_run = t.iso;
  status_code = if db_ping && scheduler_running then 200 else 503;
}
