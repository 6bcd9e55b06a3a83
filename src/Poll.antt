-- ===== src/Poll.antt =====
-- What the two pollers have in common (src/argus/rss_poller/pipeline.py, src/argus/sec_poller/pipeline.py):
-- a session that inserts an event unless one with the same source and external id is there, and
-- the cursor row. A violated primary key raises, and nothing of the session is committed.
pub mod Inserts
pub mod Batches
pub mod Saves
pub mod Growth
pub mod Sizes
use argus_core.Common.{
  ℕ, ◌+◌, ◌≡◌, refl, Bool, true, false, List, [], ◌∷◌, ◌++◌, Option, none, some, arith,
  if◌then◌else◌,
}
use argus_core.Common.Text.{Text, text_eq}
use argus_core.Models.{RawEvent, Draft, PollingState, new_event}
use argus_core.Store.{find, exists_external}

-- A loop whose body may raise.
unfoldable pub for_each_or_raise {ℓ κ} :
    {A : Type ℓ} {S : Type κ} → (A → S → Option S) → List A → S → Option S
for_each_or_raise body [] s = some s
for_each_or_raise body (x ∷ xs) s = elim (body x s) [
  | none ↦ none
  | some s' ↦ for_each_or_raise body xs s'
]

-- The session of a poller, with the clock and the source of ids.
pub record Inbox (W : Type 0) : Type 0 where
  pub rows : List RawEvent
  pub world : W
  pub inserted : ℕ

pub record Sources (W : Type 0) : Type 0 where
  pub now : W → ℕ × W
  pub fresh : W → ℕ × W

module _ {W : Type 0} (env : Sources W) where
  -- `session.add(RawEvent(...))` and its flush.
  unfoldable pub insert : Draft → Inbox W → Option (Inbox W)
  insert d s =
      let (id, w) = env.fresh s.world in
      let (t, w') = env.now w in
      elim (find id s.rows) [
        | some _ ↦ none
        | none ↦ some (record {
          rows = s.rows ++ new_event id t d ∷ [];
          world = w';
          inserted = s.inserted + 1;
        })
      ]

  -- The test for an existing row, and the insertion after it.
  unfoldable pub add_new : Draft → Inbox W → Option (Inbox W)
  unfolding insert
  add_new d s = if exists_external d.source d.external_id s.rows then some s else insert d s

  -- An item that is passed over (`continue`) offers nothing.
  unfoldable pub offer : Option Draft → Inbox W → Option (Inbox W)
  offer none s = some s
  offer (some d) s = add_new d s

-- `_upsert_cursor`.
unfoldable pub upsert_cursor : Text → Text → List PollingState → List PollingState
upsert_cursor key value [] = record { source = key; cursor = value } ∷ []
upsert_cursor key value (p ∷ ps) =
    if text_eq p.source key
    then record p { cursor = value } ∷ ps
    else p ∷ upsert_cursor key value ps
