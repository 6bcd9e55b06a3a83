-- ===== src/Common/Trace.antt =====
-- Functions that call out and may raise, such as the `main` functions of src/argus and src/alembic/env.py:
-- what they call, in order, and whether they end with an exception. What a call does to the world, and
-- whether it raises, is a parameter.
use argus_core.Common.Tests.{if◌then◌else◌, Bool-cases}
use mathlib.Core.Bool.{Bool, true, false, ◌||◌}
use mathlib.Core.List.{List, [], ◌∷◌, ◌++◌}
use mathlib.Core.Logic.{inl, inr}
use mathlib.Core.Path.{◌≡◌, refl, ap}

-- What a piece of a function did: how it ended, and its calls, each with whether it raised.
pub record Ran (C W : Type 0) : Type 0 where
  pub world : W
  pub raised : Bool
  pub calls : List (C × Bool)

module _ {C W : Type 0} (perform : C → W → W × Bool) where
  unfoldable pub one_call : C → W → Ran C W
  one_call c w =
      let (after, raises) = perform c w in
      record { world = after; raised = raises; calls = (c, raises) ∷ [] }

  -- `first; second`: an exception of the first is passed on.
  unfoldable pub followed_by : (W → Ran C W) → (W → Ran C W) → W → Ran C W
  followed_by first second w =
      let done = first w in
      let rest = second done.world in
      if done.raised then done else record rest { calls = done.calls ++ rest.calls }

  -- `try: body finally: last`.
  unfoldable pub try_finally : (W → Ran C W) → (W → Ran C W) → W → Ran C W
  try_finally body last w =
      let inside = body w in
      let closed = last inside.world in
      record {
        world = closed.world;
        raised = inside.raised || closed.raised;
        calls = inside.calls ++ closed.calls;
      }

  unfoldable pub and_then : C → (W → Ran C W) → W → Ran C W
  unfolding one_call followed_by
  and_then c body = followed_by (one_call c) body

  -- `start; try: body finally: close`, and so `with` for its context: `close` is called whatever `body`
  -- did, and not when `start` raised.
  unfoldable pub bracket : C → (W → Ran C W) → C → W → Ran C W
  unfolding and_then one_call try_finally
  bracket start body close = and_then start (try_finally body (one_call close))

  -- Statements one after another.
  unfoldable pub in_order : List C → W → Ran C W
  unfolding and_then
  in_order [] w = record { world = w; raised = false; calls = [] }
  in_order (c ∷ cs) w = and_then c (in_order cs) w

-- How statements in order can go: all are called and none raises, or they are called up to the first that
-- raises.
pub data Course {C : Type 0} : List C → List (C × Bool) → Bool → Type 0 where
  done : Course [] [] false
  fails : (c : C) (cs : List C) → Course (c ∷ cs) ((c, true) ∷ []) true
  goes :
      (c : C) (cs : List C) (calls : List (C × Bool)) (raised : Bool)
      → Course cs calls raised
      → Course (c ∷ cs) ((c, false) ∷ calls) raised

module _ {C W : Type 0} (perform : C → W → W × Bool) where
  pub in_order-Course :
      (cs : List C) (w : W) → Course cs (in_order perform cs w).calls (in_order perform cs w).raised
  unfolding in_order and_then one_call followed_by
  in_order-Course [] w = Course.done
  in_order-Course (c ∷ cs) w =
      let first = perform c w in
      let rest = in_order perform cs first.0 in
      elim (Bool-cases first.1) [
        | inl e ↦ rw e (Course.fails c cs)
        | inr e ↦ rw e (Course.goes c cs rest.calls rest.raised (in_order-Course cs first.0))
      ]

-- All are called, and none raises.
abbrev pub all_passed : {C : Type 0} → List C → List (C × Bool)
all_passed [] = []
all_passed (c ∷ cs) = (c, false) ∷ all_passed cs

abbrev Whole : {C : Type 0} → List C → List (C × Bool) → Bool → Type 0
Whole cs calls true = Unit {0}
Whole cs calls false = calls ≡ all_passed cs

Course-Whole :
    {C : Type 0} (cs : List C) (calls : List (C × Bool)) (raised : Bool)
    → Course cs calls raised
    → Whole cs calls raised
Course-Whole _ _ _ Course.done = refl
Course-Whole _ _ _ (Course.fails c cs) = tt
Course-Whole _ _ true (Course.goes c cs calls _ rest) = tt
Course-Whole _ _ false (Course.goes c cs calls _ rest) =
    ap (λ l. (c, false) ∷ l) (Course-Whole cs calls false rest)

-- Without an exception all are called, and none raises.
pub Course-whole :
    {C : Type 0} (cs : List C) (calls : List (C × Bool))
    → Course cs calls false
    → calls ≡ all_passed cs
Course-whole cs calls course = Course-Whole cs calls false course
