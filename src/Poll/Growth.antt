-- ===== src/Poll/Growth.antt =====
-- The rows that a session of a poller adds, and the drafts that it is offered.
use mathlib.Core.Path.{subst}
use mathlib.Core.List.{append_assoc}
use argus_core.Common.{
  ◌≡◌, refl, ◌∙◌, List, [], ◌∷◌, ◌++◌, Option, none, some, All, All-append, Bool-cases, inl, inr,
}
use argus_core.Models.{RawEvent, Draft}
use argus_core.Store.{exists_external}
use argus_core.Poll.{Inbox, Sources, add_new, offer}
use argus_core.Poll.Inserts.{insert-rows}

module _ {W : Type 0} (env : Sources W) where
  -- What holds of the columns of each event that an offer makes.
  module _ (Good : RawEvent → Type 0) where
    pub record Grown (start : List RawEvent) (s : Inbox W) : Type 0 where
      pub added : List RawEvent
      pub appended : s.rows ≡ start ++ added
      pub good : All Good added

    add_new-Grown :
        (start : List RawEvent) (d : Draft) (s s' : Inbox W)
        → ((e : RawEvent) → e.source ≡ d.source → e.poller_meta ≡ d.poller_meta → Good e)
        → add_new env d s ≡ some s'
        → Grown start s
        → Grown start s'
    unfolding add_new
    add_new-Grown start d s s' makes h g =
        elim (Bool-cases (exists_external d.source d.external_id s.rows)) [
          | inl present ↦ let same : s ≡ s' = cc (rw present at h) in subst (Grown start) same g
          | inr absent ↦
              let (e, grown, p, q, m) = insert-rows env d s s' (rw absent at h) in
              record {
                added = g.added ++ e ∷ [];
                appended = grown ∙ rw g.appended (append_assoc start g.added (e ∷ []));
                good = All-append Good g.added (e ∷ []) g.good (makes e p m, tt);
              }
        ]

    pub offer-Grown :
        (start : List RawEvent) (o : Option Draft) (s s' : Inbox W)
        → ((d : Draft)
            → o ≡ some d
            → (e : RawEvent) → e.source ≡ d.source
            → e.poller_meta ≡ d.poller_meta
            → Good e)
        → offer env o s ≡ some s'
        → Grown start s
        → Grown start s'
    unfolding offer
    offer-Grown start none s s' makes h g = let same : s ≡ s' = cc h in subst (Grown start) same g
    offer-Grown start (some d) s s' makes h g = add_new-Grown start d s s' (makes d refl) h g
