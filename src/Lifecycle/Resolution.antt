-- ===== src/Lifecycle/Resolution.antt =====
-- `duplicate_of` points from a duplicate to its original, which may become a duplicate itself.
-- The pointers resolve if following them ends at a row that is no duplicate.
use argus_core.Common.{
  ℕ, ◌≡◌, ◌≢◌, sym, ◌∙◌, List, none, some, arith, ◌==◌, ==_iff, Bool-cases, inl, inr,
}
use mathlib.Core.Path.{subst}
use argus_core.Models.{RawEvent}
use argus_core.Store.{find, save, find-save, find-save_ne}

pub data Resolves (rows : List RawEvent) : ℕ → Type 0 where
  original : (i : ℕ) (r : RawEvent) → find i rows ≡ some r → r.duplicate_of ≡ none → Resolves rows i
  copy :
      (i j : ℕ) (r : RawEvent)
      → find i rows ≡ some r
      → r.duplicate_of ≡ some j
      → Resolves rows j
      → Resolves rows i

pub record AllResolve (rows : List RawEvent) : Type 0 where
  pub at : (i : ℕ) (r : RawEvent) → find i rows ≡ some r → Resolves rows i

-- What a round may write into `duplicate_of`: nothing, or another row that is no duplicate.
pub data Pointer (rows : List RawEvent) (e' : RawEvent) : Type 0 where
  clear : e'.duplicate_of ≡ none → Pointer rows e'
  points :
      (o : RawEvent)
      → e'.duplicate_of ≡ some o.id
      → o.id ≢ e'.id
      → find o.id rows ≡ some o
      → o.duplicate_of ≡ none
      → Pointer rows e'

module _ (rows : List RawEvent) (e e' : RawEvent) (there : find e.id rows ≡ some e)
    (same : e'.id ≡ e.id) (was_clear : e.duplicate_of ≡ none) (p : Pointer rows e') where
  here : find e'.id (save e' rows) ≡ some e'
  here = find-save e'.id e' rows e (rw same there) ∙ ground arith

  written : (q : Pointer rows e') → Resolves (save e' rows) e'.id
  written (clear h) = original e'.id e' here h
  written (points o h ne at_o plain) =
      copy e'.id o.id e' here h
        (original o.id o (find-save_ne o.id e' rows (λ x. ne (sym x)) ∙ at_o) plain)

  at_other :
      (i : ℕ) (r : RawEvent) → e'.id ≢ i → find i rows ≡ some r → find i (save e' rows) ≡ some r
  at_other i r ne h = find-save_ne i e' rows ne ∙ h

  Resolves-save : {i : ℕ} → Resolves rows i → Resolves (save e' rows) i
  Resolves-save (original i r h plain) = elim (Bool-cases (e'.id == i)) [
    | inl at_i ↦ subst (Resolves (save e' rows)) ((==_iff e'.id i).0 at_i) (written p)
    | inr apart ↦ original i r (at_other i r (ground arith) h) plain
  ]
  Resolves-save (copy i j r h to rest) =
      copy i j r (at_other i r (λ x. cc (there, h, same, x, was_clear, to)) h) to
        (Resolves-save rest)

  pub AllResolve-save : AllResolve rows → AllResolve (save e' rows)
  AllResolve-save all = record {
    at = λ i r h. elim (Bool-cases (e'.id == i)) [
      | inl at_i ↦ subst (Resolves (save e' rows)) ((==_iff e'.id i).0 at_i) (written p)
      | inr apart ↦ Resolves-save (all.at i r (sym (find-save_ne i e' rows (ground arith)) ∙ h))
    ];
  }
