-- ===== src/Poll/Batches.antt =====
-- A batch of items offered one after the other.
use argus_core.Common.{◌≡◌, refl, List, [], ◌∷◌, Option, some, All, Option-cases, inl, inr}
use mathlib.Core.Path.{subst}
use argus_core.Models.{RawEvent, Draft}
use argus_core.Poll.{for_each_or_raise, Inbox, Sources, offer}
use argus_core.Poll.Inserts.{
  Inserted, Present, offer-Inserted, offer-stays, offer-Present, offer_again,
}

-- A loop that ends without raising keeps what each round keeps.
pub for_each_or_raise_inv {ℓ κ μ} :
    {A : Type ℓ} {S : Type κ} (P : S → Type μ) (body : A → S → Option S)
    → ((x : A) (s s' : S) → body x s ≡ some s' → P s → P s')
    → (xs : List A) (s s' : S) → for_each_or_raise body xs s ≡ some s'
    → P s
    → P s'
unfolding for_each_or_raise
for_each_or_raise_inv P body keep [] s s' e h = let same : s ≡ s' = cc e in subst P same h
for_each_or_raise_inv P body keep (x ∷ xs) s s' e h = elim (Option-cases (body x s)) [
  | inl raised ↦ absurd (cc (e, raised))
  | inr (t, passed) ↦
      for_each_or_raise_inv P body keep xs t s' (rw (passed, for_each_or_raise) at e)
        (keep x s t passed h)
]

module _ {W A : Type 0} (env : Sources W) (draft : A → Option Draft) where
  abbrev pub body : A → Inbox W → Option (Inbox W)
  body x = offer env (draft x)

  -- After a batch all that it offers is in the table.
  pub batch-Present :
      (xs : List A) (s s' : Inbox W)
      → for_each_or_raise body xs s ≡ some s'
      → All (λ x. Present env (draft x) s'.rows) xs
  unfolding for_each_or_raise
  batch-Present [] s s' e = tt
  batch-Present (x ∷ xs) s s' e = elim (Option-cases (body x s)) [
    | inl raised ↦ absurd (cc (e, raised))
    | inr (t, passed) ↦
        let rest = rw (passed, for_each_or_raise) at e in
        (
          for_each_or_raise_inv (λ u. Present env (draft x) u.rows) body
              (λ y u u' step there. offer-stays env (draft x) (draft y) u u' step there) xs t s'
              rest (offer-Present env (draft x) s t passed),
          batch-Present xs t s' rest,
        )
  ]

  -- A batch of what is there inserts nothing.
  pub batch_again :
      (xs : List A) (s : Inbox W)
      → All (λ x. Present env (draft x) s.rows) xs
      → for_each_or_raise body xs s ≡ some s
  unfolding for_each_or_raise
  batch_again [] s h = refl
  batch_again (x ∷ xs) s h =
      rw (offer_again env (draft x) s h.0, for_each_or_raise) (batch_again xs s h.1)

  -- The invariant of a session that starts from a table in order.
  pub batch-Inserted :
      (start : List RawEvent) (xs : List A) (s s' : Inbox W)
      → for_each_or_raise body xs s ≡ some s'
      → Inserted start s
      → Inserted start s'
  batch-Inserted start =
      for_each_or_raise_inv (Inserted start) body (λ x. offer-Inserted env start (draft x))
