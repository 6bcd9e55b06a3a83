-- ===== src/Notifier/Digest/Run.antt =====
-- `DigestJob.run_once` of src/argus/notifier/digest.py as a whole.
use argus_core.Common.{
  ℕ, ◌+◌, ◌≡◌, refl, ◌∙◌, Bool, true, false, List, [], ◌∷◌, some, length, ◌⊎◌, inl, inr, All,
  All-map, All-filter, All-filter_test, for_each,
}
use argus_core.Models.{RawEvent}
use argus_core.Store.{
  Db, find, Distinct, Loaded, Loaded-all, Loaded-filter, find-All_filter, unpicked,
}
use argus_core.Lifecycle.{Evolves, RowValid}
use argus_core.Lifecycle.Drain.{Evolves-refl}
use argus_core.Lifecycle.Rooted.{ValidResolve}
use argus_core.Lifecycle.Ledger.{Ledger}
use argus_core.Lifecycle.Bills.{Bills, Noted}
use argus_core.Poll.Inserts.{UniqueExternal}
use argus_core.Notifier.Summaries.{build_digest_embed}
use argus_core.Notifier.Worker.{Discord, delivered}
use argus_core.Notifier.Worker.Effects.{IsProcessed, delivered-RowValid}
use argus_core.Notifier.Digest.{
  band, in_digest, mark_sent, DigestResult, conclude, send_digest, run_once,
}
use argus_core.Notifier.Digest.Laws.{in_digest-IsProcessed}
use argus_core.Notifier.Digest.Marks.{
  rows, mark_all-Evolves, mark_all-Distinct, mark_all-untouched, mark_all-All,
  mark_all-UniqueExternal, mark_all-AllResolve, mark_all-Ledger, mark_all-Bills, mark_all-Noted,
  mark_all-delivered, mark_all-notes,
}

-- A run wrote nothing, as there was no event or Discord refused, or Discord accepted and it marked
-- each event of its band at one time.
pub data Wrote {W : Type 0} (es : List RawEvent) (answer : Bool) (db : Db) (r : DigestResult W)
    : Type 0 where
  nothing : (es ≡ []) ⊎ (answer ≡ false) → r.returned ≡ 0 → r.db ≡ db → Wrote es answer db r
  all :
      (t : ℕ)
      → answer ≡ true
      → r.returned ≡ length es
      → r.db ≡ for_each (mark_sent t) es db
      → Wrote es answer db r

module _ {W : Type 0} (now : W → ℕ × W) (discord : Discord W) where
  conclude-Wrote :
      (ok : Bool) (t : ℕ) (es : List RawEvent) (db : Db) (w : W)
      → Wrote es ok db (conclude now discord ok t es db w)
  unfolding conclude
  conclude-Wrote true t es db w = all t refl refl refl
  conclude-Wrote false t es db w = nothing (inr refl) refl refl

  -- What Discord answers to the digest of these events.
  abbrev pub answer_to : List RawEvent → W → Bool
  answer_to es w = (discord.send (build_digest_embed es ∷ []) w).0

  send_digest-Wrote :
      (t : ℕ) (es : List RawEvent) (db : Db) (w : W)
      → Wrote es (answer_to es w) db (send_digest now discord t es db w)
  unfolding send_digest
  send_digest-Wrote t [] db w = nothing (inl refl) refl refl
  send_digest-Wrote t (e ∷ es) db w =
      let (ok, w') = discord.send (build_digest_embed (e ∷ es) ∷ []) w in
      conclude-Wrote ok t (e ∷ es) db w'

  module _ (min_score instant_score : ℕ) (locked : ℕ → Bool) (db : Db) (w : W) where
    abbrev pub result : DigestResult W
    result = run_once now discord min_score instant_score locked db w

    abbrev pub events : List RawEvent
    events = band min_score instant_score locked (rows db)

    abbrev pub answer : Bool
    answer = answer_to events (now w).1

    result-Wrote : Wrote events answer db result
    unfolding run_once
    result-Wrote = let (t, w') = now w in send_digest-Wrote t events db w'

    ready : All IsProcessed events
    ready =
        All-map (in_digest-IsProcessed min_score instant_score locked) _
          (All-filter_test (in_digest min_score instant_score locked) (rows db))

    -- A run keeps what the marking of its band keeps.
    pub result-keeps :
        (P : Db → Type 0)
        → ((t : ℕ) → P db → P (for_each (mark_sent t) events db))
        → P db
        → P result.db
    result-keeps P keep h = elim result-Wrote [
      | nothing _ zero_sent same ↦ rw same h
      | all t _ count marked ↦ rw marked (keep t h)
    ]

    pub result-All :
        (P : RawEvent → Type 0)
        → ((t : ℕ) (e : RawEvent) → IsProcessed e → P e → P (delivered t e))
        → All P (rows db)
        → All P (rows result.db)
    result-All P keep v =
        result-keeps (λ x. All P (rows x))
          (λ t. mark_all-All t P (keep t) events db ready (All-filter P _ (rows db) v)) v

    module _ (d : Distinct (rows db)) where
      loaded : Loaded (rows db) events
      loaded = Loaded-filter (in_digest min_score instant_score locked) (Loaded-all (rows db) d)

      -- For a table with unique ids, one of two things holds. Either there is no event in the
      -- band or Discord refuses the digest, and the run returns 0 and leaves the database as it
      -- was; or Discord accepts it, and the run returns the number of the events in the band,
      -- every one of them ends as sent at one and the same time, and there is one more
      -- notification for each.
      pub all_or_nothing :
          (((events ≡ []) ⊎ (answer ≡ false)) × (result.returned ≡ 0) × (result.db ≡ db))
          ⊎ ((t : ℕ) × (answer ≡ true)
              × (result.returned ≡ length events)
              × All (λ e. find e.id (rows result.db) ≡ some (delivered t e)) events
              × (length result.db.notifications ≡ length db.notifications + length events))
      all_or_nothing = elim result-Wrote [
        | nothing why zero_sent same ↦ inl (why, zero_sent, same)
        | all t accepted count marked ↦ inr (
          t,
          accepted,
          count,
          rw marked (mark_all-delivered t events db loaded ready),
          rw marked (mark_all-notes t events db),
        )
      ]

      pub result-Evolves : Evolves (rows db) (rows result.db)
      result-Evolves =
          result-keeps (λ x. Evolves (rows db) (rows x))
            (λ t _. mark_all-Evolves t events db loaded ready) (Evolves-refl (rows db))

      -- A row outside of the band stays as it is.
      pub result-unpicked :
          (i : ℕ) (r : RawEvent)
          → find i (rows db) ≡ some r
          → in_digest min_score instant_score locked r ≡ false
          → find i (rows result.db) ≡ some r
      result-unpicked i r there dropped =
          result-keeps (λ x. find i (rows x) ≡ some r)
            (λ t h.
              mark_all-untouched t i events db ready (
                unpicked (in_digest min_score instant_score locked) (rows db) events i r
                  loaded.found (All-filter_test _ (rows db)) there dropped)
              ∙ h)
            there

      -- A row of the band stays as it is if Discord refuses the digest, and else it is marked as sent.
      pub result-picked :
          (i : ℕ) (r : RawEvent)
          → find i (rows db) ≡ some r
          → in_digest min_score instant_score locked r ≡ true
          → ((answer ≡ false) × (find i (rows result.db) ≡ some r))
            ⊎ ((t : ℕ) × (find r.id (rows result.db) ≡ some (delivered t r)))
      result-picked i r there picked = elim all_or_nothing [
        | inl (inl no_event, _, same) ↦ absurd (
            find-All_filter (λ e. ⊥) (in_digest min_score instant_score locked) (rows db) i r
              (rw no_event tt) there picked)
        | inl (inr refused, _, same) ↦ inl (refused, rw same there)
        | inr (t, _, _, sent, _) ↦ inr (
          t,
          find-All_filter (λ e. find e.id (rows result.db) ≡ some (delivered t e))
              (in_digest min_score instant_score locked) (rows db) i r sent there picked,
        )
      ]

      pub result-Distinct : Distinct (rows result.db)
      result-Distinct = result-keeps (λ x. Distinct (rows x)) (λ t. mark_all-Distinct t events db) d

      pub result-UniqueExternal : UniqueExternal (rows db) → UniqueExternal (rows result.db)
      result-UniqueExternal =
          result-keeps (λ x. UniqueExternal (rows x))
            (λ t. mark_all-UniqueExternal t events db loaded ready)

      pub result-AllResolve : ValidResolve (rows db) → ValidResolve (rows result.db)
      result-AllResolve =
          result-keeps (λ x. ValidResolve (rows x))
            (λ t. mark_all-AllResolve t events db loaded ready)

      pub result-RowValid : All RowValid (rows db) → All RowValid (rows result.db)
      result-RowValid = result-All RowValid delivered-RowValid

      -- If ids are unique, and every event has one delivered notification when it is sent and
      -- none otherwise, then this still holds after a run of the digest.
      pub result-Ledger :
          Ledger (rows db) db.notifications → Ledger (rows result.db) result.db.notifications
      result-Ledger =
          result-keeps (λ x. Ledger (rows x) x.notifications)
            (λ t. mark_all-Ledger t events db loaded ready)

      pub result-Bills : Bills (rows db) db.llm_calls → Bills (rows result.db) result.db.llm_calls
      result-Bills =
          result-keeps (λ x. Bills (rows x) x.llm_calls)
            (λ t. mark_all-Bills t events db loaded ready)

      pub result-Noted :
          Noted (rows db) db.notifications → Noted (rows result.db) result.db.notifications
      result-Noted =
          result-keeps (λ x. Noted (rows x) x.notifications)
            (λ t. mark_all-Noted t events db loaded ready)
