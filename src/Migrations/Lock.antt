-- ===== src/Migrations/Lock.antt =====
-- src/alembic/env.py: `do_run_migrations`, which brackets the migrations by an advisory lock, and
-- `run_async_migrations`, which gives it a connection. What the database and alembic do on a call, and
-- whether it raises, is a parameter.
use mathlib.Core.Path.{subst}
use argus_core.Common.{
  ◌≡◌, refl, ◌||◌, Bool, true, false, List, [], ◌∷◌, ◌++◌, Bool-cases, inl, inr,
}
use argus_core.Common.Trace.{Ran, one_call, followed_by, try_finally, and_then, bracket}

pub data Call : Type 0 where
  make_engine connect lock configure begin_transaction run_migrations : Call
  end_transaction unlock disconnect dispose : Call

module _ {W : Type 0} (perform : Call → W → W × Bool) where
  -- `do_run_migrations`.
  unfoldable pub do_run_migrations : W → Ran Call W
  unfolding bracket and_then one_call
  do_run_migrations =
      bracket perform Call.lock
        (and_then perform Call.configure (
          bracket perform Call.begin_transaction (one_call perform Call.run_migrations)
            Call.end_transaction))
        Call.unlock

  -- `run_async_migrations`: the engine is disposed of if nothing raised.
  unfoldable pub run_async_migrations : W → Ran Call W
  unfolding and_then followed_by bracket one_call
  run_async_migrations = and_then perform Call.make_engine (
      followed_by perform (bracket perform Call.connect do_run_migrations Call.disconnect)
        (one_call perform Call.dispose))

-- A call that returned, and one that raised.
abbrev passed : Call → Call × Bool
passed c = (c, false)

abbrev threw : Call → Call × Bool
threw c = (c, true)

-- The calls that a run can make, each with whether it raises, and whether the run raises: it does so at the
-- lock; at `configure`, at the start of the transaction, and then whether or not the unlocking raises; or it
-- has made every call, and raises if one of the last three did.
pub data Trace : Bool → List (Call × Bool) → Type 0 where
  refused : Trace true (threw Call.lock ∷ [])
  unconfigured :
      (unlocking : Bool)
      → Trace true (passed Call.lock ∷ threw Call.configure ∷ (Call.unlock, unlocking) ∷ [])
  not_begun :
      (unlocking : Bool)
      → Trace true (
          passed Call.lock
          ∷ passed Call.configure
          ∷ threw Call.begin_transaction
          ∷ (Call.unlock, unlocking)
          ∷ [])
  whole :
      (running ending unlocking : Bool)
      → Trace ((running || ending) || unlocking) (
          passed Call.lock
          ∷ passed Call.configure
          ∷ passed Call.begin_transaction
          ∷ (Call.run_migrations, running)
          ∷ (Call.end_transaction, ending)
          ∷ (Call.unlock, unlocking)
          ∷ [])

module _ {W : Type 0} (perform : Call → W → W × Bool) where
  -- Whichever calls raise, `do_run_migrations` ends in one of four ways: it raises at the lock,
  -- and then makes no further call; it raises when the context is configured or when the
  -- transaction begins, and then gives the lock back as its last call; or it makes all calls in
  -- order, the script of the migrations between the two ends of the transaction and the unlocking
  -- last. It runs no migration without the lock.
  pub do_run_migrations-Trace :
      (w : W) → Trace (do_run_migrations perform w).raised (do_run_migrations perform w).calls
  unfolding do_run_migrations bracket and_then one_call followed_by try_finally
  do_run_migrations-Trace w =
      let locked = perform Call.lock w in
      let configured = perform Call.configure locked.0 in
      let begun = perform Call.begin_transaction configured.0 in
      elim (Bool-cases locked.1) [
        | inl e ↦ rw e Trace.refused
        | inr e ↦ elim (Bool-cases configured.1) [
          | inl f ↦ rw (e, f) (Trace.unconfigured _)
          | inr f ↦ elim (Bool-cases begun.1) [
            | inl g ↦ rw (e, f, g) (Trace.not_begun _)
            | inr g ↦ rw (e, f, g) (Trace.whole _ _ _)
          ]
        ]
      ]

-- The calls of the whole script: no engine, no connection, an end with an exception (of the migrations or
-- of giving the connection back) without `dispose`, or every call, where only `dispose` can have raised.
pub data Connected : Bool → List (Call × Bool) → Type 0 where
  no_engine : Connected true (threw Call.make_engine ∷ [])
  no_connection : Connected true (passed Call.make_engine ∷ threw Call.connect ∷ [])
  aborted :
      (raised closing : Bool) (calls : List (Call × Bool))
      → Trace raised calls
      → (raised || closing) ≡ true
      → Connected true (
          passed Call.make_engine
          ∷ passed Call.connect
          ∷ (calls ++ (Call.disconnect, closing) ∷ []))
  finished :
      (disposing : Bool) (calls : List (Call × Bool))
      → Trace false calls
      → Connected disposing (
          passed Call.make_engine
          ∷ passed Call.connect
          ∷ ((calls ++ passed Call.disconnect ∷ []) ++ (Call.dispose, disposing) ∷ []))

module _ {W : Type 0} (perform : Call → W → W × Bool) where
  -- Whichever calls raise, `run_async_migrations` ends in one of these ways. The making of the
  -- engine or the connection raises, and it makes no further call and raises. Or it makes the
  -- calls of one of the courses of `do_run_migrations` and gives the connection back; if one of
  -- these raised, it raises without a further call, and if none did, it disposes of the engine
  -- and raises exactly if this does. A course of `do_run_migrations` is the lock that raises; or
  -- the lock, then the configuration that raises, or the start of the transaction that raises
  -- after it, and the unlocking; or the lock, the configuration and the start, none of which
  -- raises, then the migrations, the end of the transaction and the unlocking, and it raises
  -- exactly if one of these three did. So no migration runs without the lock.
  pub run_async_migrations-Connected :
      (w : W)
      → Connected (run_async_migrations perform w).raised (run_async_migrations perform w).calls
  unfolding run_async_migrations bracket and_then one_call followed_by try_finally
  run_async_migrations-Connected w =
      let made = perform Call.make_engine w in
      let connected = perform Call.connect made.0 in
      let ran = do_run_migrations perform connected.0 in
      let closed = perform Call.disconnect ran.world in
      let course = do_run_migrations-Trace perform connected.0 in
      elim (Bool-cases made.1) [
        | inl e ↦ rw e Connected.no_engine
        | inr e ↦ elim (Bool-cases connected.1) [
          | inl f ↦ rw (e, f) Connected.no_connection
          | inr f ↦ elim (Bool-cases ran.raised) [
            | inl g ↦
                rw (e, f, g) (Connected.aborted ran.raised closed.1 ran.calls course (rw g refl))
            | inr g ↦ elim (Bool-cases closed.1) [
              | inl h ↦
                  rw (e, f, g, h) (Connected.aborted ran.raised true ran.calls course (rw g refl))
              | inr h ↦
                  rw (e, f, g, h)
                    (Connected.finished _ ran.calls (subst (λ b. Trace b ran.calls) g course))
            ]
          ]
        ]
      ]
