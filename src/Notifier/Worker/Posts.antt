-- ===== src/Notifier/Worker/Posts.antt =====
-- What a run of src/argus/notifier/worker.py sends to Discord, in what order, and what it makes of the
-- answers.
use mathlib.Core.List.{append_assoc, append-nil}
use argus_core.Common.{
  ℕ, ◌+◌, leb, if◌then◌else◌, none, ◌≡◌, refl, sym, ◌∙◌, Bool, true, false, some, List, [], ◌∷◌,
  ◌++◌, All, for_each, ==_iff,
}
use argus_core.Common.Text.{codes}
use argus_core.Models.{Status, RawEvent, Notification}
use argus_core.Store.{
  Db, find, save, find-save, Distinct, Loaded, Loaded-save, write, add_notification,
}
use argus_core.Lifecycle.Drain.{drain-untouched}
use argus_core.Notifier.Embeds.{FloatFormat, Embed, build_embed}
use argus_core.Notifier.Worker.{
  Discord, Session, delivered, refused, delivery_note, refusal_note, batch, settle, process_event,
  run_once,
}
use argus_core.Notifier.Worker.Effects.{IsProcessed, after, process_event-writes, after-Edge}
use argus_core.Notifier.Worker.Run.{batch-Loaded, batch-IsProcessed}

-- A message, and whether Discord has accepted it.
pub record Post : Type 0 where
  pub embeds : List Embed
  pub accepted : Bool

-- What becomes of an event and is noted of it, after Discord has accepted its alert or not.
pub data Answered (e : RawEvent) : Bool → RawEvent → Notification → Type 0 where
  yes :
      (t : ℕ)
      → Answered e true
          (record e { status = Status.sent; sent_at = some t })
          (record { event_id = e.id; channel = codes "discord"; delivered = true; error = none })
  no :
      Answered e false
        (record e {
          retry_count = e.retry_count + 1;
          status = if leb 3 (e.retry_count + 1) then Status.failed else e.status;
        })
        (record {
          event_id = e.id;
          channel = codes "discord";
          delivered = false;
          error = some (
              if leb 3 (e.retry_count + 1)
              then codes "max_retries_exceeded"
              else codes "send_failed");
        })

one_more :
    {A : Type 0} (after between before : List A) (x : A) (rest : List A)
    → after ≡ between ++ rest
    → between ≡ before ++ x ∷ []
    → after ≡ before ++ x ∷ rest
one_more after between before x rest p q = p ∙ rw q (append_assoc before (x ∷ []) rest)

Answered-id :
    (e : RawEvent) (ok : Bool) (row : RawEvent) (note : Notification)
    → Answered e ok row note
    → row.id ≡ e.id
Answered-id e true _ _ (yes t) = refl
Answered-id e false _ _ no = refl

module _ (fmt : FloatFormat) where
  -- One message for each event, with its alert alone, in the order of the events; the events are in
  -- the table as the answers left them, and the notifications tell of them.
  pub data Posted (rows : List RawEvent)
      : List RawEvent → List Post → List Notification → Type 0 where
    done : Posted rows [] [] []
    post :
        (e : RawEvent) (es : List RawEvent) (ok : Bool) (row : RawEvent) (note : Notification)
        → (posts : List Post) (notes : List Notification) → Answered e ok row note
        → find e.id rows ≡ some row
        → Posted rows es posts notes
        → Posted rows
            (e ∷ es)
            (record { embeds = build_embed fmt e ∷ []; accepted = ok } ∷ posts)
            (note ∷ notes)

  module _ {W : Type 0} (now : W → ℕ × W) (discord : Discord W) where
    -- The webhook, with a record of the messages that it was sent.
    abbrev pub watched : Discord (W × List Post)
    watched = record {
      send = λ embeds (w, posts).
          let (ok, w') = discord.send embeds w in
          (ok, (w', posts ++ record { embeds = embeds; accepted = ok } ∷ []));
    }

    abbrev pub clock : W × List Post → ℕ × (W × List Post)
    clock (w, posts) = let (t, w') = now w in (t, (w', posts))

    -- One round, which began with the table `db` and the messages `posts`.
    record Round (e : RawEvent) (db : Db) (posts : List Post) (s : Session (W × List Post))
        : Type 0 where
      ok : Bool
      row : RawEvent
      note : Notification
      answered : Answered e ok row note
      saved : s.db.raw_events ≡ save row db.raw_events
      noted : s.db.notifications ≡ db.notifications ++ note ∷ []
      posted : s.world.1 ≡ posts ++ record { embeds = build_embed fmt e ∷ []; accepted = ok } ∷ []

    settle-Round :
        (ok : Bool) (e : RawEvent) (db : Db) (w : W) (posts : List Post) (n : ℕ)
        → let sent = posts ++ record { embeds = build_embed fmt e ∷ []; accepted = ok } ∷ [] in
          Round e db posts (settle fmt clock watched ok e db (w, sent) n)
    unfolding settle write add_notification delivered refused
    settle-Round true e db w posts n = record {
      ok = true;
      row = delivered (now w).0 e;
      note = delivery_note e.id;
      answered = yes (now w).0;
      saved = refl;
      noted = refl;
      posted = refl;
    }
    settle-Round false e db w posts n = record {
      ok = false;
      row = refused e;
      note = refusal_note (refused e);
      answered = no;
      saved = refl;
      noted = refl;
      posted = refl;
    }

    process_event-Round :
        (e : RawEvent) (s : Session (W × List Post))
        → Round e s.db s.world.1 (process_event fmt clock watched e s)
    unfolding process_event
    process_event-Round e s =
        let (ok, w) = discord.send (build_embed fmt e ∷ []) s.world.0 in
        settle-Round ok e s.db w s.world.1 s.sent

    -- What the rounds from one session to another have sent and noted.
    record Rounds (es : List RawEvent) (s s' : Session (W × List Post)) : Type 0 where
      posts : List Post
      notes : List Notification
      posted : s'.world.1 ≡ s.world.1 ++ posts
      noted : s'.db.notifications ≡ s.db.notifications ++ notes
      each : Posted s'.db.raw_events es posts notes

    drained :
        (es : List RawEvent) (s : Session (W × List Post))
        → Loaded s.db.raw_events es
        → All IsProcessed es
        → Rounds es s (for_each (process_event fmt clock watched) es s)
    unfolding for_each
    drained [] s l h = record {
      posts = [];
      notes = [];
      posted = sym (append-nil _);
      noted = sym (append-nil _);
      each = done;
    }
    drained (e ∷ es) s l h =
        let s' = process_event fmt clock watched e s in
        let r = process_event-Round e s in
        let same = Answered-id e r.ok r.row r.note r.answered in
        let rest : Rounds es s' (for_each (process_event fmt clock watched) es s') =
          drained es s' (rw r.saved (Loaded-save e r.row same l)) h.1 in
        record {
          posts = record { embeds = build_embed fmt e ∷ []; accepted = r.ok } ∷ rest.posts;
          notes = r.note ∷ rest.notes;
          posted = one_more _ s'.world.1 s.world.1 _ rest.posts rest.posted r.posted;
          noted = one_more _ s'.db.notifications s.db.notifications _ rest.notes rest.noted r.noted;
          each =
              post e es r.ok r.row r.note rest.posts rest.notes r.answered
                (drain-untouched (λ t. t.db.raw_events) (process_event fmt clock watched)
                    (after fmt clock watched) (process_event-writes fmt clock watched) IsProcessed
                    (after-Edge fmt clock watched) e.id es s' h.1 l.distinct.0
                  ∙ rw (r.saved, find-save e.id r.row s.db.raw_events e (rw same l.found.0), same)
                      (rw ((==_iff e.id e.id).1 refl) refl))
                rest.each;
        }

    -- If ids are unique, a run of the notifier sends one message for each event of its batch and
    -- no other, in the order of the batch, with the alert made from that event alone. After the
    -- run, and before its commit, an event whose message Discord has accepted is in the table as
    -- sent, with a delivered notification; one whose message it has refused has one more failure
    -- counted, failed at the third, with a notification of the refusal; and the run adds these
    -- notifications, in the order of the batch, and no others.
    pub run_once-Posted :
        (size min_score : ℕ) (locked : ℕ → Bool) (db : Db) (w : W)
        → Distinct db.raw_events
        → let s = run_once fmt clock watched size min_score locked db (w, []) in
          (notes : List Notification) × (s.db.notifications ≡ db.notifications ++ notes)
          × Posted s.db.raw_events (batch size min_score locked db.raw_events) s.world.1 notes
    unfolding run_once
    run_once-Posted size min_score locked db w d =
        let r =
          drained (batch size min_score locked db.raw_events)
            (record { db = db; world = (w, []); sent = 0 })
            (batch-Loaded size min_score locked db.raw_events d)
            (batch-IsProcessed size min_score locked db.raw_events) in
        (r.notes, r.noted, rw r.posted r.each)
