-- ===== src/Notifier/Digest/Laws.antt =====
-- Which events the digest picks (src/argus/notifier/digest.py).
use argus_core.Common.{ℕ, ◌≤◌, ◌<◌, ◌≡◌, Bool, true, false, not, some, arith, leb}
use argus_core.Models.{Status, RawEvent}
use argus_core.Notifier.Worker.{selected}
use argus_core.Notifier.Worker.Effects.{IsProcessed}
use argus_core.Notifier.Digest.{in_digest}

-- A processed event that nobody has locked, with a score of at least `min_score`, is picked by
-- the instant path exactly if its score reaches `instant_score`, and by the digest exactly if it
-- does not.
pub paths_partition :
    (min_score instant_score n : ℕ) (locked : ℕ → Bool) (e : RawEvent)
    → e.status ≡ Status.processed
    → e.relevance_score ≡ some n
    → locked e.id ≡ false
    → min_score ≤ n
    → (selected instant_score locked e ≡ leb instant_score n)
      × (in_digest min_score instant_score locked e ≡ not (leb instant_score n))
unfolding selected in_digest
paths_partition min_score instant_score n locked e h s u le = (ground arith, ground arith)

-- Below `min_score` an event is picked by neither, so it stays processed.
below_min_untouched :
    (min_score instant_score n : ℕ) (locked : ℕ → Bool) (e : RawEvent)
    → min_score ≤ instant_score
    → e.relevance_score ≡ some n
    → n < min_score
    → (selected instant_score locked e ≡ false)
      × (in_digest min_score instant_score locked e ≡ false)
unfolding selected in_digest
below_min_untouched min_score instant_score n locked e le s low = (ground arith, ground arith)

-- A processed event with a score of the band is picked unless it is locked.
pub in_digest-free :
    (min_score instant_score n : ℕ) (locked : ℕ → Bool) (e : RawEvent)
    → e.status ≡ Status.processed
    → e.relevance_score ≡ some n
    → min_score ≤ n
    → n < instant_score
    → in_digest min_score instant_score locked e ≡ not (locked e.id)
unfolding in_digest
in_digest-free min_score instant_score n locked e h s le lt = ground arith

pub in_digest-IsProcessed :
    (min_score instant_score : ℕ) (locked : ℕ → Bool) (e : RawEvent)
    → in_digest min_score instant_score locked e ≡ true
    → IsProcessed e
unfolding in_digest
in_digest-IsProcessed min_score instant_score locked e h = ground arith
