-- ===== src/Lifecycle/Drain.antt =====
-- A service drains a batch: it walks the rows that a query loaded, and each round rewrites the row
-- of that round. The rules here turn a fact about one round into one about the run.
use argus_core.Common.{
  ℕ, ◌≡◌, refl, ◌≢◌, sym, ◌∙◌, List, ◌∷◌, some, arith, ◌==◌, ==_iff, Bool-cases, inl, inr, All,
  for_each, for_each_inv,
}
use mathlib.Core.Path.{subst}
use argus_core.Models.{RawEvent}
use argus_core.Store.{
  find, save, find-save, find-save_ne, Distinct, Distinct-save, Loaded, Loaded-save, All-save,
}
use argus_core.Lifecycle.{Edge, Edge-refl, Evolves}

pub Evolves-refl : (rows : List RawEvent) → Evolves rows rows
Evolves-refl rows = record { kept = λ i r h. (r, h, Edge-refl r); none_new = λ i h. h }

-- Writing back a row that was untouched so far.
Evolves-save :
    (start rows : List RawEvent) (e e' : RawEvent)
    → find e.id start ≡ some e
    → find e.id rows ≡ some e
    → Edge e e'
    → Evolves start rows
    → Evolves start (save e' rows)
Evolves-save start rows e e' was is edge ev = record {
  kept = λ i r h. elim (Bool-cases (e.id == i)) [
    | inl same ↦
        let p : e.id ≡ i = (==_iff e.id i).0 same in
        let q : e ≡ r = cc (was, h, p) in
        (
          e',
          find-save i e' rows e (rw edge.id is) ∙ rw (edge.id, same) refl,
          subst (λ x. Edge x e') q edge,
        )
    | inr other ↦
        let (r', there, step) = ev.kept i r h in
        (r', find-save_ne i e' rows (ground (arith, edge.id)) ∙ there, step)
  ];
  none_new = λ i h. find-save_ne i e' rows (λ p. cc (was, h, p, edge.id)) ∙ ev.none_new i h;
}

module _ {S : Type 0} (rows : S → List RawEvent) (body : RawEvent → S → S)
    (after : RawEvent → S → RawEvent)
    (writes : (e : RawEvent) (s : S) → rows (body e s) ≡ save (after e s) (rows s))
    (Pre : RawEvent → Type 0) (edge : (e : RawEvent) (s : S) → Pre e → Edge e (after e s)) where
  record Draining (start : List RawEvent) (es : List RawEvent) (s : S) : Type 0 where
    at_start : Loaded start es
    now : Loaded (rows s) es
    ready : All Pre es
    so_far : Evolves start (rows s)

  round-Draining :
      (start : List RawEvent) (e : RawEvent) (es : List RawEvent) (s : S)
      → Draining start (e ∷ es) s
      → Draining start es (body e s)
  round-Draining start e es s d = record {
    at_start = record { found = d.at_start.found.1; distinct = d.at_start.distinct.1 };
    now = rw writes (Loaded-save e (after e s) (edge e s d.ready.0).id d.now);
    ready = d.ready.1;
    so_far = rw writes (
        Evolves-save start (rows s) e (after e s) d.at_start.found.0 d.now.found.0
          (edge e s d.ready.0) d.so_far);
  }

  -- A run over loaded rows takes every row of the table along at most one edge.
  pub drain-Evolves :
      (es : List RawEvent) (s : S)
      → Loaded (rows s) es
      → All Pre es
      → Evolves (rows s) (rows (for_each body es s))
  drain-Evolves es s loaded ready =
      (for_each_inv (Draining (rows s)) body (round-Draining (rows s)) es s (record {
        at_start = loaded;
        now = loaded;
        ready = ready;
        so_far = Evolves-refl (rows s);
      })).so_far

  pub drain-Distinct :
      (es : List RawEvent) (s : S) → Distinct (rows s) → Distinct (rows (for_each body es s))
  drain-Distinct es s =
      for_each_inv (λ _ t. Distinct (rows t)) body
        (λ e _ t d. rw writes (Distinct-save (after e t) (rows t) d)) es s

  -- A run keeps what each round establishes for the row that it writes.
  pub drain-All :
      (P : RawEvent → Type 0)
      → ((e : RawEvent) (s : S) → Pre e → P e → P (after e s))
      → (es : List RawEvent) (s : S) → All Pre es
      → All P es
      → All P (rows s)
      → All P (rows (for_each body es s))
  drain-All P keep es s ready good all =
      (for_each_inv (λ xs t. All Pre xs × All P xs × All P (rows t)) body
        (λ e xs t (pre, p, a).
          (pre.1, p.1, rw writes (All-save P (after e t) (rows t) (keep e t pre.0 p.0) a)))
        es s (ready, good, all)).2

  -- A row that is not in the batch stays as it is.
  pub drain-untouched :
      (i : ℕ) (es : List RawEvent) (s : S)
      → All Pre es
      → All (λ e. e.id ≢ i) es
      → find i (rows (for_each body es s)) ≡ find i (rows s)
  drain-untouched i es s ready apart =
      (for_each_inv
        (λ xs t. All Pre xs × All (λ e. e.id ≢ i) xs × (find i (rows t) ≡ find i (rows s))) body
        (λ e xs t (pre, ne, same). (
          pre.1,
          ne.1,
          rw writes (
              find-save_ne i (after e t) (rows t) (λ p. ne.0 (sym (edge e t pre.0).id ∙ p)) ∙ same),
        ))
        es s (ready, apart, refl)).2

  -- A run keeps a property of the table that each write of a row of the batch keeps.
  pub drain-keeps :
      (P : List RawEvent → Type 0)
      → ((e : RawEvent) (s : S)
          → Pre e
          → find e.id (rows s) ≡ some e
          → P (rows s)
          → P (save (after e s) (rows s)))
      → (es : List RawEvent) (s : S) → Loaded (rows s) es
      → All Pre es
      → P (rows s)
      → P (rows (for_each body es s))
  drain-keeps P keep es s loaded ready h =
      (for_each_inv (λ xs t. Loaded (rows t) xs × All Pre xs × P (rows t)) body
        (λ e xs t (l, pre, p). (
          rw writes (Loaded-save e (after e t) (edge e t pre.0).id l),
          pre.1,
          rw writes (keep e t pre.0 l.found.0 p),
        ))
        es s (loaded, ready, h)).2

  -- A run keeps a property of the state that each round of a loaded row keeps.
  pub drain-maintains :
      (P : S → Type 0)
      → ((e : RawEvent) (s : S) → Pre e → find e.id (rows s) ≡ some e → P s → P (body e s))
      → (es : List RawEvent) (s : S) → Loaded (rows s) es
      → All Pre es
      → P s
      → P (for_each body es s)
  drain-maintains P keep es s loaded ready h =
      (for_each_inv (λ xs t. Loaded (rows t) xs × All Pre xs × P t) body
        (λ e xs t (l, pre, p). (
          rw writes (Loaded-save e (after e t) (edge e t pre.0).id l),
          pre.1,
          keep e t pre.0 l.found.0 p,
        ))
        es s (loaded, ready, h)).2
