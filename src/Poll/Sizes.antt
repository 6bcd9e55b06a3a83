-- ===== src/Poll/Sizes.antt =====
-- The sizes of the rows that the pollers of src/argus insert.
use argus_core.Common.{
  ℕ, ◌+◌, ◌≤◌, ◌≡◌, refl, [], ◌∷◌, ◌++◌, Option, none, some, arith, length, All, All-append,
  Bool-cases, Option-cases, inl, inr,
}
use mathlib.Core.Path.{subst}
use argus_core.Models.{Draft, new_event}
use argus_core.Store.{find, exists_external}
use argus_core.Migrations.Typed.{Short, Kept}
use argus_core.Poll.{Inbox, Sources, insert, add_new, offer}

pub record FitsDraft (d : Draft) : Type 0 where
  pub source : length d.source ≤ 32
  pub content_hash : length d.content_hash ≤ 64
  pub ticker : Short 16 d.ticker

new_event-Kept : (id t : ℕ) (d : Draft) → FitsDraft d → Kept (new_event id t d)
unfolding new_event
new_event-Kept id t d f = (
  record { carries = (omega arith, refl, refl) },
  record {
    source = f.source;
    content_hash = f.content_hash;
    ticker = f.ticker;
    sentiment = tt;
    score = tt;
    tries = omega arith;
  },
)

module _ {W : Type 0} (env : Sources W) where
  insert-Kept :
      (d : Draft) (s s' : Inbox W)
      → FitsDraft d
      → insert env d s ≡ some s'
      → All Kept s.rows
      → All Kept s'.rows
  unfolding insert
  insert-Kept d s s' f h k =
      let (id, w) = env.fresh s.world in
      let (t, w') = env.now w in
      elim (Option-cases (find id s.rows)) [
        | inl free ↦
            let grown : Inbox W = record {
              rows = s.rows ++ new_event id t d ∷ [];
              world = w';
              inserted = s.inserted + 1;
            } in
            let same : grown ≡ s' = cc (h, free) in
            subst (λ x. All Kept x.rows) same
              (All-append Kept s.rows (new_event id t d ∷ []) k (new_event-Kept id t d f, tt))
        | inr (r, taken) ↦ absurd (cc (h, taken))
      ]

  add_new-Kept :
      (d : Draft) (s s' : Inbox W)
      → FitsDraft d
      → add_new env d s ≡ some s'
      → All Kept s.rows
      → All Kept s'.rows
  unfolding add_new
  add_new-Kept d s s' f h k = elim (Bool-cases (exists_external d.source d.external_id s.rows)) [
    | inl present ↦ let same : s ≡ s' = cc (rw present at h) in subst (λ x. All Kept x.rows) same k
    | inr absent ↦ insert-Kept d s s' f (rw absent at h) k
  ]

  -- An offer adds only rows that fit.
  pub offer-Kept :
      (o : Option Draft) (s s' : Inbox W)
      → ((d : Draft) → o ≡ some d → FitsDraft d)
      → offer env o s ≡ some s'
      → All Kept s.rows
      → All Kept s'.rows
  unfolding offer
  offer-Kept none s s' fits h k = let same : s ≡ s' = cc h in subst (λ x. All Kept x.rows) same k
  offer-Kept (some d) s s' fits h k = add_new-Kept d s s' (fits d refl) h k
