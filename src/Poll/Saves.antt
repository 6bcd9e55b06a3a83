-- ===== src/Poll/Saves.antt =====
-- The keys of the table when a row is written back.
use argus_core.Common.{
  ◌≡◌, refl, ◌∙◌, false, List, [], ◌∷◌, some, arith, ◌==◌, Bool-cases, inl, inr,
}
use mathlib.Core.Path.{subst}
use argus_core.Common.Text.{Text}
use argus_core.Models.{RawEvent}
use argus_core.Store.{find, save, exists_external}
use argus_core.Poll.Inserts.{UniqueExternal}

module _ (e e' : RawEvent) (same_source : e'.source ≡ e.source)
    (same_external : e'.external_id ≡ e.external_id) where
  exists-save :
      (s x : Text) (rows : List RawEvent)
      → find e'.id rows ≡ some e
      → exists_external s x (save e' rows) ≡ exists_external s x rows
  unfolding find save exists_external
  exists-save s x [] there = refl
  exists-save s x (r ∷ rows) there =
      ground (arith, exists-save s x rows, same_source, same_external)

  pub UniqueExternal-save :
      (rows : List RawEvent)
      → find e'.id rows ≡ some e
      → UniqueExternal rows
      → UniqueExternal (save e' rows)
  unfolding find save
  UniqueExternal-save [] there u = tt
  UniqueExternal-save (r ∷ rows) there u = elim (Bool-cases (r.id == e'.id)) [
    | inl here ↦
        let p : r ≡ e = ground arith in
        let old = subst (λ y. exists_external y.source y.external_id rows ≡ false) p u.0 in
        rw here (rw (same_source, same_external) old, u.1)
    | inr apart ↦
        let there' : find e'.id rows ≡ some e = ground arith in
        rw apart (
          exists-save r.source r.external_id rows there' ∙ u.0,
          UniqueExternal-save rows there' u.1,
        )
  ]
