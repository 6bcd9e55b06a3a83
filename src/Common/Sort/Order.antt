-- ===== src/Common/Sort/Order.antt =====
-- Orders, and the lemmas on `sort_by`.
use mathlib.Core.List.{Perm}
use mathlib.Core.List.Perm
use argus_core.Common.{
  ℕ, zero, suc, ◌≡◌, Bool, true, false, List, [], ◌∷◌, All, All-map, take, drop, Bool-cases, inl,
  inr,
}
use argus_core.Common.Sort.{insert, sort_by, All-insert}

-- The test is that of a total preorder.
pub record IsTotal {ℓ} {A : Type ℓ} (before : A → A → Bool) : Type ℓ where
  pub trans : (a b c : A) → before a b ≡ true → before b c ≡ true → before a c ≡ true
  pub total : (a b : A) → before a b ≡ false → before b a ≡ true

module _ {ℓ} {A : Type ℓ} (before : A → A → Bool) where
  abbrev pub IsSorted : List A → Type 0
  IsSorted [] = Unit
  IsSorted (x ∷ xs) = All (λ y. before x y ≡ true) xs × IsSorted xs

  module _ (t : IsTotal before) where
    insert-IsSorted : (x : A) (ys : List A) → IsSorted ys → IsSorted (insert before x ys)
    unfolding insert
    insert-IsSorted x [] s = (tt, tt)
    insert-IsSorted x (y ∷ ys) s = elim (Bool-cases (before x y)) [
      | inl ahead ↦ rw ahead ((ahead, All-map (λ z yz. t.trans x y z ahead yz) ys s.0), s)
      | inr behind ↦ rw behind (
        All-insert before (λ z. before y z ≡ true) x ys (t.total x y behind) s.0,
        insert-IsSorted x ys s.1,
      )
    ]

    pub sort_by-IsSorted : (xs : List A) → IsSorted (sort_by before xs)
    unfolding sort_by
    sort_by-IsSorted [] = tt
    sort_by-IsSorted (x ∷ xs) = insert-IsSorted x (sort_by before xs) (sort_by-IsSorted xs)

  insert-perm : (x : A) (ys : List A) → Perm (insert before x ys) (x ∷ ys)
  unfolding insert
  insert-perm x [] = Perm.refl (x ∷ [])
  insert-perm x (y ∷ ys) = elim (Bool-cases (before x y)) [
    | inl ahead ↦ rw ahead (Perm.refl (x ∷ y ∷ ys))
    | inr behind ↦ rw behind (Perm.trans (Perm.cons y (insert-perm x ys)) (Perm.swap x y ys))
  ]

  pub sort_by-perm : (xs : List A) → Perm (sort_by before xs) xs
  unfolding sort_by
  sort_by-perm [] = Perm.refl []
  sort_by-perm (x ∷ xs) =
      Perm.trans (insert-perm x (sort_by before xs)) (Perm.cons x (sort_by-perm xs))

  All-drop : (P : A → Type 0) (n : ℕ) (xs : List A) → All P xs → All P (drop n xs)
  All-drop P zero xs h = h
  All-drop P (suc n) [] h = tt
  All-drop P (suc n) (x ∷ xs) h = All-drop P n xs h.1

  -- In a sorted list each of the first `n` goes ahead of each of the rest.
  pub take-before-drop :
      (n : ℕ) (xs : List A)
      → IsSorted xs
      → All (λ x. All (λ y. before x y ≡ true) (drop n xs)) (take n xs)
  take-before-drop zero xs s = tt
  take-before-drop (suc n) [] s = tt
  take-before-drop (suc n) (x ∷ xs) s = (All-drop _ n xs s.0, take-before-drop n xs s.1)
