-- ===== src/Poll/Inserts.antt =====
-- The keys of the table under the insertions of the pollers.
use mathlib.Core.Path.{subst}
use mathlib.Core.List.{append_assoc}
use argus_core.Common.{
  length-append, ℕ, ◌+◌, ◌≡◌, ◌≢◌, refl, sym, ◌∙◌, ap, true, false, ◌&&◌, List, [], ◌∷◌, ◌++◌,
  Option, none, some, arith, All, All-append, length, if◌then◌else◌, Bool-cases, Option-cases, inl,
  inr,
}
use argus_core.Common.Text.{Text, text_eq, text_eq_refl, text_eq_swap}
use argus_core.Models.{RawEvent, Draft, Status, new_event}
use argus_core.Store.{find, exists_external, Distinct}
use argus_core.Poll.{Inbox, Sources, insert, add_new, offer}

-- No two rows share source and external id.
abbrev pub UniqueExternal : List RawEvent → Type 0
UniqueExternal [] = Unit
UniqueExternal (r ∷ rows) =
    (exists_external r.source r.external_id rows ≡ false) × UniqueExternal rows

-- A row as a poller inserts it: no other service has been at it.
abbrev pub Fresh : RawEvent → Type 0
Fresh e =
    (e.status ≡ Status.new)
    × (e.retry_count ≡ 0)
    × (e.duplicate_of ≡ none)
    × (e.relevance_score ≡ none)

-- What holds of the table and the insertions of a session that began with the rows `start`.
pub record Inserted {W : Type 0} (start : List RawEvent) (s : Inbox W) : Type 0 where
  pub distinct : Distinct s.rows
  pub unique : UniqueExternal s.rows
  pub added : List RawEvent
  pub appended : s.rows ≡ start ++ added
  pub counted : length added ≡ s.inserted
  pub all_fresh : All Fresh added

fresh_id : (i : ℕ) (rows : List RawEvent) → find i rows ≡ none → All (λ e. e.id ≢ i) rows
unfolding find
fresh_id i [] h = tt
fresh_id i (r ∷ rows) h = (λ p. ground arith, fresh_id i rows (ground arith))

Distinct-snoc :
    (e : RawEvent) (rows : List RawEvent)
    → Distinct rows
    → All (λ r. r.id ≢ e.id) rows
    → Distinct (rows ++ e ∷ [])
Distinct-snoc e [] d h = (tt, tt)
Distinct-snoc e (r ∷ rows) d h = (
  All-append (λ x. x.id ≢ r.id) rows (e ∷ []) d.0 ((λ p. h.0 (sym p)), tt),
  Distinct-snoc e rows d.1 h.1,
)

exists-append :
    (s x : Text) (rows : List RawEvent) (e : RawEvent)
    → exists_external s x (rows ++ e ∷ [])
      ≡ (if exists_external s x rows then true else text_eq e.source s && text_eq e.external_id x)
unfolding exists_external
exists-append s x [] e = ground arith
exists-append s x (r ∷ rows) e = ground (arith, exists-append s x rows e)

UniqueExternal-snoc :
    (e : RawEvent) (rows : List RawEvent)
    → UniqueExternal rows
    → exists_external e.source e.external_id rows ≡ false
    → UniqueExternal (rows ++ e ∷ [])
unfolding exists_external
UniqueExternal-snoc e [] u h = (refl, tt)
UniqueExternal-snoc e (r ∷ rows) u h = (
  exists-append r.source r.external_id rows e
      ∙ ground
          (arith, u.0, h, text_eq_swap e.source r.source, text_eq_swap e.external_id r.external_id),
  UniqueExternal-snoc e rows u.1 (ground arith),
)

module _ {W : Type 0} (env : Sources W) where
  insert-Inserted :
      (start : List RawEvent) (d : Draft) (s s' : Inbox W)
      → exists_external d.source d.external_id s.rows ≡ false
      → insert env d s ≡ some s'
      → Inserted start s
      → Inserted start s'
  unfolding insert
  insert-Inserted start d s s' absent e h =
      let (id, w) = env.fresh s.world in
      let (t, w') = env.now w in
      let row = new_event id t d in
      let grown : Inbox W = record {
        rows = s.rows ++ row ∷ [];
        world = w';
        inserted = s.inserted + 1;
      } in
      elim (Option-cases (find id s.rows)) [
        | inl free ↦
            let same : grown ≡ s' = cc (e, free) in
            subst (Inserted start) same (record {
              distinct =
                  Distinct-snoc row s.rows h.distinct (unfold new_event in fresh_id id s.rows free);
              unique = UniqueExternal-snoc row s.rows h.unique (unfold new_event in absent);
              added = h.added ++ row ∷ [];
              appended = rw h.appended (append_assoc start h.added (row ∷ []));
              counted = omega (arith, length-append {0} h.added (row ∷ []), h.counted);
              all_fresh =
                  All-append Fresh h.added (row ∷ []) h.all_fresh
                    (unfold new_event in ((refl, refl, refl, refl), tt));
            })
        | inr (r, taken) ↦ absurd (cc (e, taken))
      ]

  add_new-Inserted :
      (start : List RawEvent) (d : Draft) (s s' : Inbox W)
      → add_new env d s ≡ some s'
      → Inserted start s
      → Inserted start s'
  unfolding add_new
  add_new-Inserted start d s s' e h =
      elim (Bool-cases (exists_external d.source d.external_id s.rows)) [
        | inl present ↦ let same : s ≡ s' = cc (rw present at e) in subst (Inserted start) same h
        | inr absent ↦ insert-Inserted start d s s' absent (rw absent at e) h
      ]

  pub offer-Inserted :
      (start : List RawEvent) (o : Option Draft) (s s' : Inbox W)
      → offer env o s ≡ some s'
      → Inserted start s
      → Inserted start s'
  unfolding offer
  offer-Inserted start none s s' e h = let same : s ≡ s' = cc e in subst (Inserted start) same h
  offer-Inserted start (some d) s s' e h = add_new-Inserted start d s s' e h

  -- What has been offered is in the table.
  abbrev pub Present : Option Draft → List RawEvent → Type 0
  Present none rows = Unit
  Present (some d) rows = exists_external d.source d.external_id rows ≡ true

  -- The row that an insertion appends.
  pub insert-rows :
      (d : Draft) (s s' : Inbox W)
      → insert env d s ≡ some s'
      → (e : RawEvent) × (s'.rows ≡ s.rows ++ e ∷ [])
        × (e.source ≡ d.source)
        × (e.external_id ≡ d.external_id)
        × (e.poller_meta ≡ d.poller_meta)
  unfolding insert
  insert-rows d s s' h =
      let (id, w) = env.fresh s.world in
      let (t, w') = env.now w in
      let grown : Inbox W = record {
        rows = s.rows ++ new_event id t d ∷ [];
        world = w';
        inserted = s.inserted + 1;
      } in
      elim (Option-cases (find id s.rows)) [
        | inl free ↦
            let same : grown ≡ s' = cc (h, free) in
            (
              new_event id t d,
              sym (ap (λ x. x.rows) same),
              unfold new_event in refl,
              unfold new_event in refl,
              unfold new_event in refl,
            )
        | inr (r, taken) ↦ absurd (cc (h, taken))
      ]

  -- A row that is there stays, and an offer that is taken up is there.
  add_new-stays :
      (x y : Text) (d : Draft) (s s' : Inbox W)
      → add_new env d s ≡ some s'
      → exists_external x y s.rows ≡ true
      → exists_external x y s'.rows ≡ true
  unfolding add_new
  add_new-stays x y d s s' h there =
      elim (Bool-cases (exists_external d.source d.external_id s.rows)) [
        | inl present ↦ let same : s ≡ s' = cc (rw present at h) in rw (← same) there
        | inr absent ↦
            let (e, grown, _, _, _) = insert-rows d s s' (rw absent at h) in
            rw (grown, exists-append, there) refl
      ]

  add_new-Present :
      (d : Draft) (s s' : Inbox W)
      → add_new env d s ≡ some s'
      → exists_external d.source d.external_id s'.rows ≡ true
  unfolding add_new
  add_new-Present d s s' h = elim (Bool-cases (exists_external d.source d.external_id s.rows)) [
    | inl present ↦ let same : s ≡ s' = cc (rw present at h) in rw (← same) present
    | inr absent ↦
        let (e, grown, p, q, _) = insert-rows d s s' (rw absent at h) in
        rw (grown, exists-append, absent, p, q, text_eq_refl d.source, text_eq_refl d.external_id)
          refl
  ]

  pub offer-stays :
      (o p : Option Draft) (s s' : Inbox W)
      → offer env p s ≡ some s'
      → Present o s.rows
      → Present o s'.rows
  unfolding offer
  offer-stays none p s s' h there = tt
  offer-stays (some d) none s s' h there = let same : s ≡ s' = cc h in rw (← same) there
  offer-stays (some d) (some c) s s' h there = add_new-stays d.source d.external_id c s s' h there

  pub offer-Present :
      (o : Option Draft) (s s' : Inbox W) → offer env o s ≡ some s' → Present o s'.rows
  unfolding offer
  offer-Present none s s' h = tt
  offer-Present (some d) s s' h = add_new-Present d s s' h

  -- An offer of what is there changes nothing.
  pub offer_again : (o : Option Draft) (s : Inbox W) → Present o s.rows → offer env o s ≡ some s
  unfolding offer add_new
  offer_again none s there = refl
  offer_again (some d) s there = rw there refl
