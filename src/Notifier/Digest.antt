-- ===== src/Notifier/Digest.antt =====
-- src/argus/notifier/digest.py: the daily summary of the band below the instant threshold.
pub mod Laws
pub mod Marks
pub mod Run
use argus_core.Common.{
  ℕ, ◌+◌, ◌≤◌, ◌≡◌, refl, Bool, true, false, not, ◌&&◌, List, [], ◌∷◌, Option, none, some, arith,
  leb, ltb, length, filter, for_each, if◌then◌else◌,
}
use argus_core.Models.{Status, status_eq, RawEvent}
use argus_core.Store.{Db, write, add_notification}
use argus_core.Notifier.Summaries.{build_digest_embed}
use argus_core.Notifier.Worker.{Discord, delivered, delivery_note}

-- `min_score <= relevance_score < instant_score`, which is not true of NULL.
in_band : ℕ → ℕ → Option ℕ → Bool
in_band min_score instant_score none = false
in_band min_score instant_score (some n) = leb min_score n && ltb n instant_score

-- The WHERE clause of `run_once`, with the rows that others have locked left out.
pub in_digest : ℕ → ℕ → (ℕ → Bool) → RawEvent → Bool
unfolding in_band
in_digest min_score instant_score locked e =
    status_eq e.status Status.processed
    && (in_band min_score instant_score e.relevance_score && not (locked e.id))

-- The rows that a digest is about.
abbrev pub band : ℕ → ℕ → (ℕ → Bool) → List RawEvent → List RawEvent
band min_score instant_score locked = filter (in_digest min_score instant_score locked)

-- The body of the loop that marks the events.
unfoldable pub mark_sent : ℕ → RawEvent → Db → Db
mark_sent now e db = add_notification (delivery_note e.id) (write (delivered now e) db)

pub record DigestResult (W : Type 0) : Type 0 where
  pub returned : ℕ
  pub db : Db
  pub world : W

module _ {W : Type 0} (now : W → ℕ × W) (discord : Discord W) where
  -- After the answer of Discord.
  unfoldable pub conclude : Bool → ℕ → List RawEvent → Db → W → DigestResult W
  conclude true t events db w = record {
    returned = length events;
    db = for_each (mark_sent t) events db;
    world = w;
  }
  conclude false t events db w = record { returned = 0; db = db; world = w }

  unfoldable pub send_digest : ℕ → List RawEvent → Db → W → DigestResult W
  unfolding conclude
  send_digest t [] db w = record { returned = 0; db = db; world = w }
  send_digest t (e ∷ es) db w =
      let (ok, w') = discord.send (build_digest_embed (e ∷ es) ∷ []) w in
      conclude ok t (e ∷ es) db w'

  -- `DigestJob.run_once`; on the early returns nothing was written, so there is nothing to commit.
  unfoldable pub run_once : ℕ → ℕ → (ℕ → Bool) → Db → W → DigestResult W
  unfolding send_digest
  run_once min_score instant_score locked db w =
      let (t, w') = now w in send_digest t (band min_score instant_score locked db.raw_events) db w'
