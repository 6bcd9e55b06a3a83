-- ===== src/Notifier/Commits/Announced.antt =====
-- What Discord was told of, over the runs of src/argus/notifier/worker.py and src/argus/notifier/digest.py with
-- commits that may fail.
use mathlib.Core.List.{append_assoc}
use argus_core.Common.{
  ℕ, ◌≡◌, ◌≢◌, sym, refl, Bool, true, false, List, [], ◌∷◌, ◌++◌, ◌==◌, All, All-map, for_each,
  for_each_inv, Bool-cases, inl, inr,
}
use argus_core.Models.{Status, status_eq, RawEvent}
use argus_core.Store.{Db, write, add_notification, All-save}
use argus_core.Notifier.Worker.Effects.{IsProcessed, refused_unsent}
use argus_core.Notifier.Worker.Run.{batch-IsProcessed}
use argus_core.Notifier.Embeds.{FloatFormat, Embed, build_embed}
use argus_core.Notifier.Summaries.{build_digest_embed}
use argus_core.Notifier.Worker.{Discord, Session, delivered, refused, settle, process_event, batch}
use argus_core.Notifier.Worker as Instant
use argus_core.Notifier.Digest.{DigestResult, band, mark_sent, conclude, send_digest}
use argus_core.Notifier.Digest as Daily
use argus_core.Notifier.Commits.{kept, committed, instant_run, digest_run, Tells, Log}

pub unsent : (s : Status) → status_eq s Status.sent ≡ false → s ≢ Status.sent
unsent s e h = cc (rw h at e)

module _ {W : Type 0} (fmt : FloatFormat) (now : W → ℕ × W) (discord : Discord W)
    (commit : W → Bool × W) where
  module _ (log : Log fmt now discord commit) where
    -- Discord has accepted a message that delivers the row.
    abbrev pub Told : W → RawEvent → Type 0
    Told w r = (sent : List Embed) × log.Accepted w sent × Tells fmt now discord commit r sent

    abbrev pub Covered : W → RawEvent → Type 0
    Covered w r = r.status ≡ Status.sent → Told w r

    -- Every row that is marked as sent is one that Discord was told of.
    abbrev pub Announced : W → List RawEvent → Type 0
    Announced w = All (Covered w)

    abbrev pub Later : W → W → Type 0
    Later v w = (sent : List Embed) → log.Accepted v sent → log.Accepted w sent

    pub Announced-Later :
        (v w : W) (rows : List RawEvent) → Later v w → Announced v rows → Announced w rows
    Announced-Later v w rows l =
        All-map (λ r told d. let (sent, a, t) = told d in (sent, l sent a, t)) rows

    module _ (e : RawEvent) (db : Db) (w : W) (n : ℕ) (h : IsProcessed e) where
      settle-Announced :
          (ok : Bool)
          → (ok ≡ true → log.Accepted w (build_embed fmt e ∷ []))
          → Announced w db.raw_events
          → let s = settle fmt now discord ok e db w n in Announced s.world s.db.raw_events
      unfolding settle write add_notification delivered
      settle-Announced true accepted a =
          let (t, w') = now w in
          let later = λ (sent : List Embed). log.kept_by_now sent w in
          All-save (Covered w') (delivered t e) db.raw_events
            (λ _. (_, later _ (accepted refl), Tells.alert t e refl))
            (Announced-Later w w' db.raw_events later a)
      settle-Announced false accepted a =
          All-save (Covered w) (refused e) db.raw_events
            (λ is_sent. absurd (unsent (refused e).status (sym (refused_unsent e h)) is_sent)) a

    round-Announced :
        (e : RawEvent) (s : Session W)
        → IsProcessed e
        → Announced s.world s.db.raw_events
        → let s' = process_event fmt now discord e s in Announced s'.world s'.db.raw_events
    unfolding process_event
    round-Announced e s h a =
        let embeds = build_embed fmt e ∷ [] in
        let (ok, w) = discord.send embeds s.world in
        settle-Announced e s.db w s.sent h ok (log.accepted embeds s.world) (
          Announced-Later s.world w s.db.raw_events (λ sent. log.kept_by_send embeds sent s.world)
            a)

    pub run_once-Announced :
        (size min_score : ℕ) (locked : ℕ → Bool) (db : Db) (w : W)
        → Announced w db.raw_events
        → let s = Instant.run_once fmt now discord size min_score locked db w in
          Announced s.world s.db.raw_events
    unfolding Instant.run_once
    run_once-Announced size min_score locked db w a =
        (for_each_inv (λ es s. All IsProcessed es × Announced s.world s.db.raw_events)
          (process_event fmt now discord) (λ e _ s (h, b). (h.1, round-Announced e s h.0 b))
          (batch size min_score locked db.raw_events) (record { db = db; world = w; sent = 0 })
          (batch-IsProcessed size min_score locked db.raw_events, a)).1

    -- The loop that marks the events of an accepted digest.
    marked-Announced :
        (t : ℕ) (before es : List RawEvent) (db : Db) (w : W)
        → log.Accepted w (build_digest_embed (before ++ es) ∷ [])
        → Announced w db.raw_events
        → Announced w (for_each (mark_sent t) es db).raw_events
    unfolding for_each mark_sent write add_notification delivered
    marked-Announced t before [] db w sent a = a
    marked-Announced t before (e ∷ es) db w sent a =
        let told : Told w (delivered t e) = (_, sent, Tells.digest t before e es refl) in
        marked-Announced t (before ++ e ∷ []) es (mark_sent t e db) w
          (rw (append_assoc before (e ∷ []) es) sent)
          (All-save (Covered w) (delivered t e) db.raw_events (λ _. told) a)

    concluded-Announced :
        (ok : Bool) (t : ℕ) (es : List RawEvent) (db : Db) (w : W)
        → (ok ≡ true → log.Accepted w (build_digest_embed es ∷ []))
        → Announced w db.raw_events
        → let r = conclude now discord ok t es db w in Announced r.world r.db.raw_events
    unfolding conclude
    concluded-Announced true t es db w sent a = marked-Announced t [] es db w (sent refl) a
    concluded-Announced false t es db w sent a = a

    sent-Announced :
        (t : ℕ) (es : List RawEvent) (db : Db) (w : W)
        → Announced w db.raw_events
        → let r = send_digest now discord t es db w in Announced r.world r.db.raw_events
    unfolding send_digest
    sent-Announced t [] db w a = a
    sent-Announced t (e ∷ es) db w a =
        let embeds = build_digest_embed (e ∷ es) ∷ [] in
        let (ok, w') = discord.send embeds w in
        concluded-Announced ok t (e ∷ es) db w' (log.accepted embeds w)
          (Announced-Later w w' db.raw_events (λ sent. log.kept_by_send embeds sent w) a)

    pub digest-Announced :
        (min_score instant_score : ℕ) (locked : ℕ → Bool) (db : Db) (w : W)
        → Announced w db.raw_events
        → let r = Daily.run_once now discord min_score instant_score locked db w in
          Announced r.world r.db.raw_events
    unfolding Daily.run_once
    digest-Announced min_score instant_score locked db w a =
        let (t, w') = now w in
        sent-Announced t (band min_score instant_score locked db.raw_events) db w'
          (Announced-Later w w' db.raw_events (λ sent. log.kept_by_now sent w) a)

    settle-Later :
        (ok : Bool) (e : RawEvent) (db : Db) (w : W) (n : ℕ)
        → Later w (settle fmt now discord ok e db w n).world
    unfolding settle
    settle-Later true e db w n = λ sent. log.kept_by_now sent w
    settle-Later false e db w n = λ sent a. a

    run_once-Later :
        (size min_score : ℕ) (locked : ℕ → Bool) (db : Db) (w : W)
        → Later w (Instant.run_once fmt now discord size min_score locked db w).world
    unfolding Instant.run_once process_event
    run_once-Later size min_score locked db w =
        for_each_inv (λ _ s. Later w s.world) (process_event fmt now discord)
          (λ e _ s l sent a.
            let embeds = build_embed fmt e ∷ [] in
            let (ok, v) = discord.send embeds s.world in
            settle-Later ok e s.db v s.sent sent (log.kept_by_send embeds sent s.world (l sent a)))
          (batch size min_score locked db.raw_events) (record { db = db; world = w; sent = 0 })
          (λ sent a. a)

    conclude-Later :
        (ok : Bool) (t : ℕ) (es : List RawEvent) (db : Db) (w : W)
        → Later w (conclude now discord ok t es db w).world
    unfolding conclude
    conclude-Later true t es db w = λ sent a. a
    conclude-Later false t es db w = λ sent a. a

    send_digest-Later :
        (t : ℕ) (es : List RawEvent) (db : Db) (w : W)
        → Later w (send_digest now discord t es db w).world
    unfolding send_digest
    send_digest-Later t [] db w = λ sent a. a
    send_digest-Later t (e ∷ es) db w =
        let embeds = build_digest_embed (e ∷ es) ∷ [] in
        let (ok, w') = discord.send embeds w in
        λ sent a. conclude-Later ok t (e ∷ es) db w' sent (log.kept_by_send embeds sent w a)

    digest-Later :
        (min_score instant_score : ℕ) (locked : ℕ → Bool) (db : Db) (w : W)
        → Later w (Daily.run_once now discord min_score instant_score locked db w).world
    unfolding Daily.run_once
    digest-Later min_score instant_score locked db w =
        let (t, w') = now w in
        λ sent a.
          send_digest-Later t (band min_score instant_score locked db.raw_events) db w' sent
            (log.kept_by_now sent w a)

    kept-Announced :
        (ok : Bool) (after before : Db) (w : W)
        → Announced w after.raw_events
        → Announced w before.raw_events
        → Announced w (kept fmt now discord commit ok after before).raw_events
    unfolding kept
    kept-Announced true after before w a b = a
    kept-Announced false after before w a b = b

    committed-Announced :
        (after before : Db) (w : W)
        → Announced w after.raw_events
        → Announced w before.raw_events
        → let (db', w') = committed fmt now discord commit after before w in
          Announced w' db'.raw_events
    unfolding committed
    committed-Announced after before w a b =
        let (ok, w') = commit w in
        let later : Later w w' = λ sent. log.kept_by_commit sent w in
        kept-Announced ok after before w' (Announced-Later w w' after.raw_events later a)
          (Announced-Later w w' before.raw_events later b)

    module _ (locked : ℕ → Bool) (db : Db) (w : W) (a : Announced w db.raw_events) where
      pub instant_run-Announced :
          (size min_score : ℕ)
          → let (db', w') = instant_run fmt now discord commit size min_score locked db w in
            Announced w' db'.raw_events
      unfolding instant_run
      instant_run-Announced size min_score =
          let s = Instant.run_once fmt now discord size min_score locked db w in
          committed-Announced s.db db s.world (run_once-Announced size min_score locked db w a)
            (Announced-Later w s.world db.raw_events (run_once-Later size min_score locked db w) a)

      pub digest_run-Announced :
          (min_score instant_score : ℕ)
          → let (db', w') = digest_run fmt now discord commit min_score instant_score locked db w in
            Announced w' db'.raw_events
      unfolding digest_run
      digest_run-Announced min_score instant_score =
          let r = Daily.run_once now discord min_score instant_score locked db w in
          let after = digest-Announced min_score instant_score locked db w a in
          elim (Bool-cases (r.returned == 0)) [
            | inl early ↦ rw early after
            | inr late ↦ rw late (
                committed-Announced r.db db r.world after (
                  Announced-Later w r.world db.raw_events
                    (digest-Later min_score instant_score locked db w) a))
          ]
