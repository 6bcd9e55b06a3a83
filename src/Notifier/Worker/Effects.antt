-- ===== src/Notifier/Worker/Effects.antt =====
-- What one round of src/argus/notifier/worker.py does to the row of its event and to the
-- notifications.
use mathlib.Core.Path.{subst}
use argus_core.Common.{
  ℕ, ◌+◌, ◌≡◌, refl, Bool, true, false, [], ◌∷◌, some, arith, tests, leb, if◌then◌else◌, Bool-cases,
  inl, inr,
}
use argus_core.Models.{Status, status_eq, RawEvent}
use argus_core.Store.{Db, find, save, write, add_notification}
use argus_core.Lifecycle.{Moves, stay, deliver, park, Carries, Edge, RowValid}
use argus_core.Lifecycle.Ledger.{Ledger, Ledger-notify}
use argus_core.Lifecycle.Bills.{Bills, Bills-save, Noted, Noted-notify}
use argus_core.Notifier.Embeds.{FloatFormat, build_embed}
use argus_core.Notifier.Worker.{
  Discord, Session, delivered, refused, delivery_note, refusal_note, settle, process_event,
  max_retries,
}

abbrev pub IsProcessed : RawEvent → Type 0
IsProcessed e = e.status ≡ Status.processed

pub delivered-Edge : (t : ℕ) (e : RawEvent) → IsProcessed e → Edge e (delivered t e)
unfolding delivered
delivered-Edge t e h = record {
  id = refl;
  source = refl;
  external_id = refl;
  ticker = refl;
  title = refl;
  body = refl;
  url = refl;
  fetched_at = refl;
  poller_meta = refl;
  moves = rw h deliver;
  retries = omega arith;
}

moves_of_refusal :
    (b : Bool) → Moves Status.processed (if b then Status.failed else Status.processed)
moves_of_refusal true = park
moves_of_refusal false = stay Status.processed

refused-Edge : (e : RawEvent) → IsProcessed e → Edge e (refused e)
unfolding refused
refused-Edge e h = record {
  id = refl;
  source = refl;
  external_id = refl;
  ticker = refl;
  title = refl;
  body = refl;
  url = refl;
  fetched_at = refl;
  poller_meta = refl;
  moves = rw h (moves_of_refusal (leb max_retries (e.retry_count + 1)));
  retries = omega arith;
}

carried : (e : RawEvent) → IsProcessed e → RowValid e → Carries Status.processed e
carried e h v = subst (λ s. Carries s e) h v.carries

pub delivered-RowValid :
    (t : ℕ) (e : RawEvent) → IsProcessed e → RowValid e → RowValid (delivered t e)
unfolding delivered
delivered-RowValid t e h v =
    let (few, original, good) = carried e h v in record { carries = (original, good, tt) }

refused-RowValid : (e : RawEvent) → IsProcessed e → RowValid e → RowValid (refused e)
unfolding refused
refused-RowValid e h v =
    let (few, original, good) = carried e h v in
    elim (Bool-cases (leb max_retries (e.retry_count + 1))) [
      | inl last ↦ record { carries = rw last (omega tests, original) }
      | inr again ↦ record { carries = rw (again, h) (ground arith, original, good) }
    ]

pub refused_unsent :
    (e : RawEvent) → IsProcessed e → false ≡ status_eq (refused e).status Status.sent
unfolding refused
refused_unsent e h = ground arith

module _ {W : Type 0} (fmt : FloatFormat) (now : W → ℕ × W) (discord : Discord W) where
  unfoldable pub row_of : Bool → RawEvent → W → RawEvent
  row_of true e w = delivered (now w).0 e
  row_of false e w = refused e

  -- The row that a round writes.
  unfoldable pub after : RawEvent → Session W → RawEvent
  unfolding row_of
  after e s = let (ok, w) = discord.send (build_embed fmt e ∷ []) s.world in row_of ok e w

  settle-writes :
      (ok : Bool) (e : RawEvent) (db : Db) (w : W) (n : ℕ)
      → (settle fmt now discord ok e db w n).db.raw_events ≡ save (row_of ok e w) db.raw_events
  unfolding settle row_of write add_notification
  settle-writes true e db w n = refl
  settle-writes false e db w n = refl

  pub process_event-writes :
      (e : RawEvent) (s : Session W)
      → (process_event fmt now discord e s).db.raw_events ≡ save (after e s) s.db.raw_events
  unfolding process_event after
  process_event-writes e s =
      let (ok, w) = discord.send (build_embed fmt e ∷ []) s.world in
      settle-writes ok e s.db w s.sent

  row_of-Edge : (ok : Bool) (e : RawEvent) (w : W) → IsProcessed e → Edge e (row_of ok e w)
  unfolding row_of
  row_of-Edge true e w h = delivered-Edge (now w).0 e h
  row_of-Edge false e w h = refused-Edge e h

  pub after-Edge : (e : RawEvent) (s : Session W) → IsProcessed e → Edge e (after e s)
  unfolding after
  after-Edge e s h =
      let (ok, w) = discord.send (build_embed fmt e ∷ []) s.world in row_of-Edge ok e w h

  row_of-RowValid :
      (ok : Bool) (e : RawEvent) (w : W) → IsProcessed e → RowValid e → RowValid (row_of ok e w)
  unfolding row_of
  row_of-RowValid true e w h v = delivered-RowValid (now w).0 e h v
  row_of-RowValid false e w h v = refused-RowValid e h v

  pub after-RowValid :
      (e : RawEvent) (s : Session W) → IsProcessed e → RowValid e → RowValid (after e s)
  unfolding after
  after-RowValid e s h v =
      let (ok, w) = discord.send (build_embed fmt e ∷ []) s.world in row_of-RowValid ok e w h v

  settle-Ledger :
      (ok : Bool) (e : RawEvent) (db : Db) (w : W) (n : ℕ)
      → IsProcessed e
      → find e.id db.raw_events ≡ some e
      → Ledger db.raw_events db.notifications
      → let db' = (settle fmt now discord ok e db w n).db in Ledger db'.raw_events db'.notifications
  unfolding settle write add_notification
  settle-Ledger true e db w n h there l =
      Ledger-notify db.raw_events db.notifications e (delivered (now w).0 e) there
        (unfold delivered in refl) (rw h refl) (delivery_note e.id) refl (unfold delivered in refl)
        l
  settle-Ledger false e db w n h there l =
      Ledger-notify db.raw_events db.notifications e (refused e) there (unfold refused in refl)
        (rw h refl) (refusal_note (refused e)) (unfold refused in refl) (refused_unsent e h) l

  pub process_event-Ledger :
      (e : RawEvent) (s : Session W)
      → IsProcessed e
      → find e.id s.db.raw_events ≡ some e
      → Ledger s.db.raw_events s.db.notifications
      → let db' = (process_event fmt now discord e s).db in Ledger db'.raw_events db'.notifications
  unfolding process_event
  process_event-Ledger e s h there l =
      let (ok, w) = discord.send (build_embed fmt e ∷ []) s.world in
      settle-Ledger ok e s.db w s.sent h there l

  settle-Bills :
      (ok : Bool) (e : RawEvent) (db : Db) (w : W) (n : ℕ)
      → find e.id db.raw_events ≡ some e
      → Bills db.raw_events db.llm_calls
      → let db' = (settle fmt now discord ok e db w n).db in Bills db'.raw_events db'.llm_calls
  unfolding settle write add_notification delivered refused
  settle-Bills true e db w n there =
      Bills-save db.raw_events db.llm_calls e (delivered (now w).0 e) there refl refl
  settle-Bills false e db w n there =
      Bills-save db.raw_events db.llm_calls e (refused e) there refl refl

  -- Neither branch touches a score or records an LLM call.
  pub process_event-Bills :
      (e : RawEvent) (s : Session W)
      → IsProcessed e
      → find e.id s.db.raw_events ≡ some e
      → Bills s.db.raw_events s.db.llm_calls
      → let db' = (process_event fmt now discord e s).db in Bills db'.raw_events db'.llm_calls
  unfolding process_event
  process_event-Bills e s h there =
      let (ok, w) = discord.send (build_embed fmt e ∷ []) s.world in
      settle-Bills ok e s.db w s.sent there

  settle-Noted :
      (ok : Bool) (e : RawEvent) (db : Db) (w : W) (n : ℕ)
      → find e.id db.raw_events ≡ some e
      → Noted db.raw_events db.notifications
      → let db' = (settle fmt now discord ok e db w n).db in Noted db'.raw_events db'.notifications
  unfolding settle write add_notification refused
  settle-Noted true e db w n there =
      Noted-notify e (delivered (now w).0 e) db.raw_events db.notifications (delivery_note e.id)
        there refl
  settle-Noted false e db w n there =
      Noted-notify e (refused e) db.raw_events db.notifications (refusal_note (refused e)) there
        refl

  pub process_event-Noted :
      (e : RawEvent) (s : Session W)
      → IsProcessed e
      → find e.id s.db.raw_events ≡ some e
      → Noted s.db.raw_events s.db.notifications
      → let db' = (process_event fmt now discord e s).db in Noted db'.raw_events db'.notifications
  unfolding process_event
  process_event-Noted e s h there =
      let (ok, w) = discord.send (build_embed fmt e ∷ []) s.world in
      settle-Noted ok e s.db w s.sent there
