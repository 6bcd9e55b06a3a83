-- ===== src/Store/Rows.antt =====
-- The rows of `raw_events` as a table with the primary key `id`.
use mathlib.Core.Path.{subst}
use argus_core.Common.{
  zero, suc, sym, inl, inr, Bool-cases, ==_iff, ℕ, ◌≡◌, refl, ◌≢◌, Bool, true, false, ap, ◌∙◌, List,
  [], ◌∷◌, Option, none, some, arith, ◌==◌, All, All-take, All-filter, filter, take, if◌then◌else◌,
}
use argus_core.Common.Sort.{insert, sort_by, All-insert, All-sort_by}
use argus_core.Models.{RawEvent}

unfoldable pub find : ℕ → List RawEvent → Option RawEvent
find i [] = none
find i (r ∷ rows) = if r.id == i then some r else find i rows

-- UPDATE ... WHERE id = e.id.
unfoldable pub save : RawEvent → List RawEvent → List RawEvent
save e [] = []
save e (r ∷ rows) = if r.id == e.id then e ∷ rows else r ∷ save e rows

-- Primary keys are unique.
abbrev pub Distinct : List RawEvent → Type 0
Distinct [] = Unit
Distinct (r ∷ rows) = All (λ e. e.id ≢ r.id) rows × Distinct rows

find-id : (i : ℕ) (rows : List RawEvent) (r : RawEvent) → find i rows ≡ some r → r.id ≡ i
unfolding find
find-id i [] r h = cc
find-id i (x ∷ rows) r h = ground (arith, find-id i rows r)

pub find-save :
    (j : ℕ) (e : RawEvent) (rows : List RawEvent) (r : RawEvent)
    → find e.id rows ≡ some r
    → find j (save e rows) ≡ (if e.id == j then some e else find j rows)
unfolding find save
find-save j e [] r h = cc
find-save j e (x ∷ rows) r h = ground (arith, find-save j e rows r)

pub find-save_ne :
    (j : ℕ) (e : RawEvent) (rows : List RawEvent) → e.id ≢ j → find j (save e rows) ≡ find j rows
unfolding find save
find-save_ne j e [] h = refl
find-save_ne j e (r ∷ rows) h = ground (arith, find-save_ne j e rows)

-- What holds of all rows that pass a test holds of a row of the table that does.
pub find-All_filter :
    (P : RawEvent → Type 0) (p : RawEvent → Bool) (rows : List RawEvent) (i : ℕ) (c : RawEvent)
    → All P (filter p rows)
    → find i rows ≡ some c
    → p c ≡ true
    → P c
unfolding find
find-All_filter P p [] i c h there t = absurd (cc)
find-All_filter P p (r ∷ rows) i c h there t = elim (Bool-cases (r.id == i)) [
  | inl here ↦
      let same : r ≡ c = ground arith in
      let kept : p r ≡ true = ap p same ∙ t in subst P same (rw kept at h).0
  | inr later ↦ elim (Bool-cases (p r)) [
    | inl kept ↦ find-All_filter P p rows i c (rw kept at h).1 (ground arith) t
    | inr dropped ↦ find-All_filter P p rows i c (rw dropped at h) (ground arith) t
  ]
]

-- The rows that a query has loaded: each is the row of the table under its key, once.
pub record Loaded (rows es : List RawEvent) : Type 0 where
  pub found : All (λ e. find e.id rows ≡ some e) es
  pub distinct : Distinct es

Distinct-take : (n : ℕ) (es : List RawEvent) → Distinct es → Distinct (take n es)
Distinct-take zero es h = tt
Distinct-take (suc n) [] h = tt
Distinct-take (suc n) (e ∷ es) h = (All-take (λ x. x.id ≢ e.id) n es h.0, Distinct-take n es h.1)

Distinct-filter : (p : RawEvent → Bool) (es : List RawEvent) → Distinct es → Distinct (filter p es)
Distinct-filter p [] h = tt
Distinct-filter p (e ∷ es) h = elim (Bool-cases (p e)) [
  | inl kept ↦ rw kept (All-filter (λ x. x.id ≢ e.id) p es h.0, Distinct-filter p es h.1)
  | inr dropped ↦ rw dropped (Distinct-filter p es h.1)
]

module _ (before : RawEvent → RawEvent → Bool) where
  Distinct-insert :
      (e : RawEvent) (es : List RawEvent)
      → All (λ x. x.id ≢ e.id) es
      → Distinct es
      → Distinct (insert before e es)
  unfolding insert
  Distinct-insert e [] fresh h = (tt, tt)
  Distinct-insert e (x ∷ es) fresh h = elim (Bool-cases (before e x)) [
    | inl ahead ↦ rw ahead ((fresh.0, fresh.1), h)
    | inr behind ↦ rw behind (
      All-insert before (λ y. y.id ≢ x.id) e es (λ p. fresh.0 (sym p)) h.0,
      Distinct-insert e es fresh.1 h.1,
    )
  ]

  Distinct-sort_by : (es : List RawEvent) → Distinct es → Distinct (sort_by before es)
  unfolding sort_by
  Distinct-sort_by [] h = tt
  Distinct-sort_by (e ∷ es) h =
      Distinct-insert e (sort_by before es) (All-sort_by before (λ x. x.id ≢ e.id) es h.0)
        (Distinct-sort_by es h.1)

  pub Loaded-sort_by : {rows es : List RawEvent} → Loaded rows es → Loaded rows (sort_by before es)
  Loaded-sort_by {es} l = record {
    found = All-sort_by before _ es l.found;
    distinct = Distinct-sort_by es l.distinct;
  }

pub Loaded-take : {rows es : List RawEvent} (n : ℕ) → Loaded rows es → Loaded rows (take n es)
Loaded-take {es} n l = record {
  found = All-take _ n es l.found;
  distinct = Distinct-take n es l.distinct;
}

pub Loaded-filter :
    {rows es : List RawEvent} (p : RawEvent → Bool) → Loaded rows es → Loaded rows (filter p es)
Loaded-filter {es} p l = record {
  found = All-filter _ p es l.found;
  distinct = Distinct-filter p es l.distinct;
}

-- A row of the table that a test refuses is not among loaded rows that pass it.
pub unpicked :
    (p : RawEvent → Bool) (rows es : List RawEvent) (i : ℕ) (r : RawEvent)
    → All (λ e. find e.id rows ≡ some e) es
    → All (λ e. p e ≡ true) es
    → find i rows ≡ some r
    → p r ≡ false
    → All (λ e. e.id ≢ i) es
unpicked p rows [] i r loaded picked there dropped = tt
unpicked p rows (e ∷ es) i r loaded picked there dropped = (
  λ same. cc (loaded.0, same, there, picked.0, dropped),
  unpicked p rows es i r loaded.1 picked.1 there dropped,
)

found_cons :
    (x : RawEvent) (rows es : List RawEvent)
    → All (λ e. e.id ≢ x.id) es
    → All (λ e. find e.id rows ≡ some e) es
    → All (λ e. find e.id (x ∷ rows) ≡ some e) es
unfolding find
found_cons x rows [] fresh h = tt
found_cons x rows (e ∷ es) fresh h =
    (ground (arith, fresh.0, h.0), found_cons x rows es fresh.1 h.1)

-- A scan of the whole table.
pub Loaded-all : (rows : List RawEvent) → Distinct rows → Loaded rows rows
unfolding find
Loaded-all [] d = record { found = tt; distinct = tt }
Loaded-all (x ∷ rows) d = record {
  found = (ground arith, found_cons x rows rows d.0 (Loaded-all rows d.1).found);
  distinct = d;
}

found_after_save :
    (e : RawEvent) (rows es : List RawEvent)
    → All (λ x. x.id ≢ e.id) es
    → All (λ x. find x.id rows ≡ some x) es
    → All (λ x. find x.id (save e rows) ≡ some x) es
found_after_save e rows [] fresh h = tt
found_after_save e rows (x ∷ es) fresh h = (
  rw (find-save_ne x.id e rows (λ p. fresh.0 (sym p))) h.0,
  found_after_save e rows es fresh.1 h.1,
)

-- What the loop has still to do stays loaded when the row of this round is written back.
pub Loaded-save :
    {rows es : List RawEvent} (e e' : RawEvent)
    → e'.id ≡ e.id
    → Loaded rows (e ∷ es)
    → Loaded (save e' rows) es
Loaded-save {rows} {es} e e' same l = record {
  found = found_after_save e' rows es (rw same l.distinct.0) l.found.1;
  distinct = l.distinct.1;
}

module _ (P : RawEvent → Type 0) where
  pub All-save : (e : RawEvent) (rows : List RawEvent) → P e → All P rows → All P (save e rows)
  unfolding save
  All-save e [] h k = tt
  All-save e (x ∷ rows) h k = elim (Bool-cases (x.id == e.id)) [
    | inl same ↦ rw same (h, k.1)
    | inr other ↦ rw other (k.0, All-save e rows h k.1)
  ]

  All-find_here : {x r : RawEvent} → some x ≡ some r → P x → P r
  All-find_here e h = subst P (cc) h

  pub All-find :
      (i : ℕ) (rows : List RawEvent) (r : RawEvent) → find i rows ≡ some r → All P rows → P r
  unfolding find
  All-find i [] r h k = absurd (cc)
  All-find i (x ∷ rows) r h k = elim (Bool-cases (x.id == i)) [
    | inl here ↦ All-find_here (ground arith) k.0
    | inr there ↦ All-find i rows r (ground arith) k.1
  ]

pub Distinct-save : (e : RawEvent) (rows : List RawEvent) → Distinct rows → Distinct (save e rows)
unfolding save
Distinct-save e [] d = tt
Distinct-save e (x ∷ rows) d = elim (Bool-cases (x.id == e.id)) [
  | inl same ↦ let p : x.id ≡ e.id = (==_iff x.id e.id).0 same in rw same (rw (← p) d.0, d.1)
  | inr other ↦
      rw other
        (All-save (λ y. y.id ≢ x.id) e rows (λ p. ground (arith, p)) d.0, Distinct-save e rows d.1)
]
