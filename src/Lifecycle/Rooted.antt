-- ===== src/Lifecycle/Rooted.antt =====
-- The pointers of `duplicate_of` under a write by the notifier, and under new rows.
use argus_core.Common.{
  ℕ, ◌≡◌, List, [], ◌∷◌, ◌++◌, none, some, arith, ◌==◌, All, ◌⊎◌, inl, inr, Bool-cases,
}
use mathlib.Core.Path.{subst}
use argus_core.Models.{Status, RawEvent}
use argus_core.Store.{find, save, All-save, All-find}
use argus_core.Lifecycle.{
  Moves, stay, classify, skip, give_up, mark, deliver, park, Edge, Carries, RowValid,
}
use argus_core.Lifecycle.Resolution.{Resolves, original, copy, AllResolve, clear, AllResolve-save}

-- Every row carries what its status asks for, and every pointer resolves.
abbrev pub ValidResolve : List RawEvent → Type 0
ValidResolve rows = All RowValid rows × AllResolve rows

-- A row that an edge from `processed` leads to has no original.
plain_after :
    (r : RawEvent) (s t : Status)
    → Moves s t
    → s ≡ Status.processed
    → Carries t r
    → r.duplicate_of ≡ none
plain_after r s t (stay x) h c = (subst (λ y. Carries y r) h c).1
plain_after r s t classify h c = c.1
plain_after r s t skip h c = c
plain_after r s t give_up h c = c.1
plain_after r s t mark h c = absurd (cc)
plain_after r s t deliver h c = c.0
plain_after r s t park h c = c.1

pub ValidResolve-save :
    (rows : List RawEvent) (e e' : RawEvent)
    → find e.id rows ≡ some e
    → Edge e e'
    → e.status ≡ Status.processed
    → (RowValid e → RowValid e')
    → ValidResolve rows
    → ValidResolve (save e' rows)
ValidResolve-save rows e e' there edge h valid (v, r) =
    let good = All-find RowValid e.id rows e there v in
    let good' = valid good in
    (
      All-save RowValid e' rows good' v,
      AllResolve-save rows e e' there edge.id
          (plain_after e e.status e.status (stay e.status) h good.carries)
          (clear (plain_after e' e.status e'.status edge.moves h good'.carries)) r,
    )

pub find-append :
    (i : ℕ) (rows added : List RawEvent) (r : RawEvent)
    → find i rows ≡ some r
    → find i (rows ++ added) ≡ some r
unfolding find
find-append i [] added r h = absurd (cc)
find-append i (x ∷ rows) added r h = ground (arith, find-append i rows added r)

append_cases :
    (i : ℕ) (rows added : List RawEvent) (r : RawEvent)
    → find i (rows ++ added) ≡ some r
    → (find i rows ≡ some r) ⊎ (find i added ≡ some r)
unfolding find
append_cases i [] added r h = inr h
append_cases i (x ∷ rows) added r h = elim (Bool-cases (x.id == i)) [
  | inl here ↦ inl (ground arith)
  | inr there ↦ elim (append_cases i rows added r (ground arith)) [
    | inl old ↦ inl (ground arith)
    | inr late ↦ inr late
  ]
]

Resolves-append :
    (rows added : List RawEvent) {i : ℕ} → Resolves rows i → Resolves (rows ++ added) i
Resolves-append rows added (original i r h plain) =
    original i r (find-append i rows added r h) plain
Resolves-append rows added (copy i j r h to rest) =
    copy i j r (find-append i rows added r h) to (Resolves-append rows added rest)

pub AllResolve-append :
    (rows added : List RawEvent)
    → All (λ e. e.duplicate_of ≡ none) added
    → AllResolve rows
    → AllResolve (rows ++ added)
AllResolve-append rows added plain all = record {
  at = λ i r h. elim (append_cases i rows added r h) [
    | inl old ↦ Resolves-append rows added (all.at i r old)
    | inr late ↦ original i r h (All-find (λ e. e.duplicate_of ≡ none) i added r late plain)
  ];
}
