-- ===== src/Lifecycle/Progress.antt =====
-- How far a service is from having settled every row: each row has a weight, and a round that lowers
-- the weight of its row lowers the total.
use argus_core.Common.{
  ℕ, zero, suc, ◌+◌, ◌-◌, ◌*◌, ◌≤◌, ◌<◌, ◌≡◌, refl, Bool, true, List, [], ◌∷◌, some, arith, ◌==◌,
  All, filter, length, for_each, for_each_inv, min, if◌then◌else◌, Bool-cases, inl, inr,
}
use argus_core.Models.{RawEvent}
use argus_core.Store.{find, save, Loaded, Loaded-save}
use argus_core.Lifecycle.{Edge}

-- The weights of the rows that pass a test, together.
unfoldable pub total : (RawEvent → Bool) → (RawEvent → ℕ) → List RawEvent → ℕ
total p weight [] = 0
total p weight (r ∷ rows) = let rest = total p weight rows in if p r then weight r + rest else rest

abbrev pub weigh : (RawEvent → Bool) → (RawEvent → ℕ) → RawEvent → ℕ
weigh p weight r = if p r then weight r else 0

module _ (p : RawEvent → Bool) (weight : RawEvent → ℕ) where
  total-save :
      (e e' : RawEvent) (rows : List RawEvent)
      → find e.id rows ≡ some e
      → e'.id ≡ e.id
      → total p weight (save e' rows) + weigh p weight e ≡ total p weight rows + weigh p weight e'
  unfolding total find save
  total-save e e' [] h same = absurd (cc)
  total-save e e' (r ∷ rows) h same = elim (Bool-cases (r.id == e.id)) [
    | inl here ↦ let is : r ≡ e = ground arith in rw (same, here, is) (ground arith)
    | inr later ↦
        let rest = total-save e e' rows (ground arith) same in rw (same, later) (ground arith)
  ]

  -- Nothing of weight is left, so nothing passes the test.
  pub none_left :
      (rows : List RawEvent)
      → All (λ r. p r ≡ true → 1 ≤ weight r) rows
      → total p weight rows ≡ 0
      → filter p rows ≡ []
  unfolding total
  none_left [] h z = refl
  none_left (r ∷ rows) h z = elim (Bool-cases (p r)) [
    | inl passes ↦ let heavy = h.0 passes in absurd (ground arith)
    | inr fails ↦ rw fails (none_left rows h.1 (ground arith))
  ]

  pub total-le :
      (rows : List RawEvent)
      → ((r : RawEvent) → weight r ≤ 3)
      → total p weight rows ≤ 3 * length (filter p rows)
  unfolding total
  total-le [] h = omega arith
  total-le (r ∷ rows) h = ground (arith, h r, total-le rows h)

module _ {S : Type 0} (rows : S → List RawEvent) (body : RawEvent → S → S)
    (after : RawEvent → S → RawEvent)
    (writes : (e : RawEvent) (s : S) → rows (body e s) ≡ save (after e s) (rows s))
    (Pre : RawEvent → Type 0) (edge : (e : RawEvent) (s : S) → Pre e → Edge e (after e s))
    (p : RawEvent → Bool) (weight : RawEvent → ℕ)
    (lighter : (e : RawEvent) (s : S) → Pre e → weigh p weight (after e s) < weigh p weight e) where
  -- A run over loaded rows takes one from the total for each of them.
  pub drain-total :
      (es : List RawEvent) (s : S)
      → Loaded (rows s) es
      → All Pre es
      → total p weight (rows (for_each body es s)) + length es ≤ total p weight (rows s)
  drain-total es s loaded ready =
      let (l, r, h) =
        for_each_inv
          (λ xs t.
            Loaded (rows t) xs
            × All Pre xs
            × (total p weight (rows t) + length es ≤ total p weight (rows s) + length xs))
          body
          (λ e xs t (l, pre, h). (
            rw writes (Loaded-save e (after e t) (edge e t pre.0).id l),
            pre.1,
            rw writes (
                let less = lighter e t pre.0 in
                let saved =
                  total-save p weight e (after e t) (rows t) l.found.0 (edge e t pre.0).id in
                omega arith),
          ))
          es s (loaded, ready, omega arith) in
      omega (arith, h)

-- The job of a service, run after run.
unfoldable pub runs : {S : Type 0} → (S → S) → ℕ → S → S
runs run zero s = s
runs run (suc n) s = runs run n (run s)

module _ {S : Type 0} (rows : S → List RawEvent) (run : S → S) (Good : S → Type 0)
    (keeps : (s : S) → Good s → Good (run s)) where
  pub runs-keeps : (n : ℕ) (s : S) → Good s → Good (runs run n s)
  unfolding runs
  runs-keeps zero s h = h
  runs-keeps (suc n) s h = runs-keeps n (run s) (keeps s h)

  module _ (p : RawEvent → Bool) (weight : RawEvent → ℕ)
      (progress : (s : S)
        → Good s
        → total p weight (rows (run s)) ≤ total p weight (rows s) - 1) where
    runs-total :
        (n : ℕ) (s : S)
        → Good s
        → total p weight (rows (runs run n s)) ≤ total p weight (rows s) - n
    unfolding runs
    runs-total zero s h = omega arith
    runs-total (suc n) s h = omega (arith, progress s h, runs-total n (run s) (keeps s h))

    -- Enough runs leave no row that passes the test.
    pub runs-settle :
        ((s : S) → Good s → All (λ r. p r ≡ true → 1 ≤ weight r) (rows s))
        → ((r : RawEvent) → weight r ≤ 3)
        → (n : ℕ) (s : S) → Good s
        → 3 * length (filter p (rows s)) ≤ n
        → filter p (rows (runs run n s)) ≡ []
    runs-settle heavy light n s h enough =
        none_left p weight (rows (runs run n s)) (heavy (runs run n s) (runs-keeps n s h))
          (omega (arith, runs-total n s h, total-le p weight (rows s) light))

-- One run that takes one from the total for each row of its batch, and has one if any row passes.
pub one_less :
    (p : RawEvent → Bool) (weight : RawEvent → ℕ) (rows rows' : List RawEvent) (size : ℕ)
    → ((r : RawEvent) → weight r ≤ 3)
    → 1 ≤ size
    → total p weight rows' + min size (length (filter p rows)) ≤ total p weight rows
    → total p weight rows' ≤ total p weight rows - 1
one_less p weight rows rows' size light some_room less = omega (arith, total-le p weight rows light)

-- The tries that are left of an event: it is parked at the third failure.
abbrev pub tries_left : RawEvent → ℕ
tries_left e = 3 - e.retry_count
