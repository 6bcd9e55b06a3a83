-- ===== src/Notifier/Worker.antt =====
-- src/argus/notifier/worker.py: one run of the instant path over a batch of processed events.
pub mod Drains
pub mod Effects
pub mod Posts
pub mod Settled
pub mod Run
pub mod Sizes
use argus_core.Common.{
  ℕ, ◌+◌, ◌≤◌, ◌≡◌, refl, Bool, true, false, not, ◌&&◌, List, [], ◌∷◌, Option, none, some, arith,
  leb, take, filter, for_each, if◌then◌else◌,
}
use argus_core.Common.Sort.{sort_by}
use argus_core.Common.Text.{Text, codes}
use argus_core.Models.{Status, status_eq, RawEvent, Notification}
use argus_core.Store.{Db, write, add_notification}
use argus_core.Notifier.Embeds.{FloatFormat, Embed, build_embed}
use argus_core.Notifier.Summaries.{score_key}

-- `DiscordClient` as the jobs see it: a payload of embeds is sent, and whether it was accepted.
pub record Discord (W : Type 0) : Type 0 where
  pub send : List Embed → W → Bool × W

abbrev pub max_retries : ℕ
max_retries = 3

pub record Session (W : Type 0) : Type 0 where
  pub db : Db
  pub world : W
  pub sent : ℕ

-- `relevance_score >= min_score`, which is not true of NULL.
pub scores : ℕ → Option ℕ → Bool
scores min_score none = false
scores min_score (some n) = leb min_score n

unfoldable pub selected : ℕ → (ℕ → Bool) → RawEvent → Bool
unfolding scores
selected min_score locked e =
    status_eq e.status Status.processed && (scores min_score e.relevance_score && not (locked e.id))

-- The query of `run_once`: the highest scores first.
unfoldable pub batch : ℕ → ℕ → (ℕ → Bool) → List RawEvent → List RawEvent
batch size min_score locked rows =
    take size
      (sort_by (λ a b. leb (score_key b) (score_key a)) (filter (selected min_score locked) rows))

unfoldable pub delivered : ℕ → RawEvent → RawEvent
delivered now e = record e { status = Status.sent; sent_at = some now }

pub refused : RawEvent → RawEvent
refused e = record e {
  retry_count = e.retry_count + 1;
  status = if leb max_retries (e.retry_count + 1) then Status.failed else e.status;
}

abbrev pub delivery_note : ℕ → Notification
delivery_note id = record {
  event_id = id;
  channel = codes "discord";
  delivered = true;
  error = none;
}

abbrev pub refusal_note : RawEvent → Notification
refusal_note e' = record {
  event_id = e'.id;
  channel = codes "discord";
  delivered = false;
  error = some (
      if leb max_retries e'.retry_count then codes "max_retries_exceeded" else codes "send_failed");
}

module _ {W : Type 0} (fmt : FloatFormat) (now : W → ℕ × W) (discord : Discord W) where
  unfoldable pub settle : Bool → RawEvent → Db → W → ℕ → Session W
  settle true e db w n =
      let (t, w') = now w in
      record {
        db = add_notification (delivery_note e.id) (write (delivered t e) db);
        world = w';
        sent = n + 1;
      }
  settle false e db w n = record {
    db = add_notification (refusal_note (refused e)) (write (refused e) db);
    world = w;
    sent = n;
  }

  -- The body of `for event in events`.
  unfoldable pub process_event : RawEvent → Session W → Session W
  unfolding settle
  process_event e s =
      let (ok, w) = discord.send (build_embed fmt e ∷ []) s.world in settle ok e s.db w s.sent

  -- `run_once` up to the commit.
  unfoldable pub run_once : ℕ → ℕ → (ℕ → Bool) → Db → W → Session W
  run_once size min_score locked db w =
      for_each process_event (batch size min_score locked db.raw_events)
        (record { db = db; world = w; sent = 0 })
