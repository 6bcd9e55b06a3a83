-- ===== src/Common/Sort.antt =====
-- `ORDER BY` and Python's `sorted` with a key: a stable insertion sort by a test `before`, which
-- says whether its first argument may stand ahead of the second; equal keys may.
pub mod Order
use argus_core.Common.Tests.{if◌then◌else◌}
use argus_core.Common.Lists.{All, length}
use mathlib.Core.Path.{◌≡◌, refl, ◌∙◌, ap}
use mathlib.Core.Bool.{Bool, true, false}
use mathlib.Core.List.{List, [], ◌∷◌}
use Prim.Native.Nat.{suc}
use native.Mathlib.Omega.{arith}

module _ {ℓ} {A : Type ℓ} (before : A → A → Bool) where
  -- An equal key stays behind those that are there: `x` stood to the left of `ys`.
  unfoldable pub insert : A → List A → List A
  insert x [] = x ∷ []
  insert x (y ∷ ys) = if before x y then x ∷ y ∷ ys else y ∷ insert x ys

  unfoldable pub sort_by : List A → List A
  sort_by [] = []
  sort_by (x ∷ xs) = insert x (sort_by xs)

  length-insert : (x : A) (ys : List A) → length (insert x ys) ≡ suc (length ys)
  unfolding insert
  length-insert x [] = refl
  length-insert x (y ∷ ys) = ground (arith, length-insert x ys)

  pub length-sort_by : (xs : List A) → length (sort_by xs) ≡ length xs
  unfolding sort_by
  length-sort_by [] = refl
  length-sort_by (x ∷ xs) = length-insert x (sort_by xs) ∙ ap suc (length-sort_by xs)

  module _ {κ} (P : A → Type κ) where
    All-insert_step :
        (b : Bool) (x y : A) (ys zs : List A)
        → P x
        → All P (y ∷ ys)
        → All P zs
        → All P (if b then x ∷ y ∷ ys else y ∷ zs)
    All-insert_step true x y ys zs h k rest = (h, k)
    All-insert_step false x y ys zs h k rest = (k.0, rest)

    pub All-insert : (x : A) (ys : List A) → P x → All P ys → All P (insert x ys)
    unfolding insert
    All-insert x [] h k = (h, tt)
    All-insert x (y ∷ ys) h k =
        All-insert_step (before x y) x y ys (insert x ys) h k (All-insert x ys h k.1)

    pub All-sort_by : (xs : List A) → All P xs → All P (sort_by xs)
    unfolding sort_by
    All-sort_by [] h = tt
    All-sort_by (x ∷ xs) h = All-insert x (sort_by xs) h.0 (All-sort_by xs h.1)
