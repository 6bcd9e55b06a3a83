-- ===== src/Notifier/Commits.antt =====
-- The ends of the runs of src/argus/notifier/worker.py and src/argus/notifier/digest.py: the commit, which may
-- fail after Discord has accepted. The session is then rolled back, and the exception ends the run.
pub mod Announced
use mathlib.Core.List.{append_assoc}
use argus_core.Common.{
  some, ℕ, ◌≡◌, refl, Bool, true, false, List, [], ◌∷◌, ◌++◌, ◌==◌, if◌then◌else◌, All, All-map,
  All-append, for_each, for_each_inv, Bool-cases, inl, inr, arith, length,
}
use argus_core.Models.{Status, RawEvent, Notification}
use argus_core.Store.{Db, write, add_notification}
use argus_core.Notifier.Embeds.{FloatFormat, Embed, build_embed}
use argus_core.Notifier.Summaries.{build_digest_embed}
use argus_core.Notifier.Worker.{
  Discord, Session, delivered, delivery_note, refusal_note, refused, settle, process_event, batch,
}
use argus_core.Notifier.Worker as Instant
use argus_core.Notifier.Digest.{DigestResult, band, mark_sent, conclude, send_digest}
use argus_core.Notifier.Digest as Daily

module _ {W : Type 0} (fmt : FloatFormat) (now : W → ℕ × W) (discord : Discord W)
    (commit : W → Bool × W) where
  kept : Bool → Db → Db → Db
  kept true after before = after
  kept false after before = before

  -- `await session.commit()`.
  unfoldable pub committed : Db → Db → W → Db × W
  unfolding kept
  committed after before w = let (ok, w') = commit w in (kept ok after before, w')

  -- `NotifierWorker.run_once`.
  unfoldable pub instant_run : ℕ → ℕ → (ℕ → Bool) → Db → W → Db × W
  unfolding committed
  instant_run size min_score locked db w =
      let s = Instant.run_once fmt now discord size min_score locked db w in
      committed s.db db s.world

  -- `DigestJob.run_once`: the early returns, which return 0, do not commit.
  unfoldable pub digest_run : ℕ → ℕ → (ℕ → Bool) → Db → W → Db × W
  unfolding committed
  digest_run min_score instant_score locked db w =
      let r = Daily.run_once now discord min_score instant_score locked db w in
      if r.returned == 0 then (r.db, r.world) else committed r.db db r.world

  -- A message that delivers a row: the alert on an event, or a digest of events with this one among them,
  -- where the row is the event after its delivery.
  pub data Tells (r : RawEvent) : List Embed → Type 0 where
    alert :
        (t : ℕ) (e : RawEvent)
        → record e { status = Status.sent; sent_at = some t } ≡ r
        → Tells r (build_embed fmt e ∷ [])
    digest :
        (t : ℕ) (before : List RawEvent) (e : RawEvent) (after : List RawEvent)
        → record e { status = Status.sent; sent_at = some t } ≡ r
        → Tells r (build_digest_embed (before ++ e ∷ after) ∷ [])

  -- The messages that Discord has accepted: each accepted one is there from then on.
  pub record Log : Type 1 where
    pub Accepted : W → List Embed → Type 0
    pub accepted :
        (embeds : List Embed) (w : W)
        → (discord.send embeds w).0 ≡ true
        → Accepted (discord.send embeds w).1 embeds
    pub kept_by_send :
        (embeds sent : List Embed) (w : W)
        → Accepted w sent
        → Accepted (discord.send embeds w).1 sent
    pub kept_by_now : (sent : List Embed) (w : W) → Accepted w sent → Accepted (now w).1 sent
    pub kept_by_commit : (sent : List Embed) (w : W) → Accepted w sent → Accepted (commit w).1 sent
