-- ===== src/Tests/Notifying.antt =====
-- The theorems on the instant path, the digest and the embeds, applied to two scored events.
use argus_core.Common.{
  ℕ, ◌+◌, ◌++◌, ◌==◌, List, ◌≤◌, ◌≡◌, refl, true, false, [], some, All, length, arith, ◌⊎◌,
}
use argus_core.Models.{Notification, new_event}
use argus_core.Store.{find}
use argus_core.Lifecycle.Ledger.{Ledger, delivered_count}
use argus_core.Notifier.Embeds.{build_embed}
use argus_core.Notifier.Summaries.{build_digest_embed}
use argus_core.Notifier.Embeds.Limits.{Shows, build_embed_bounds, digest-Shows}
use argus_core.Notifier.Worker.{Discord, batch, run_once, selected, delivered}
use argus_core.Notifier.Worker.Posts.{watched, Posted, run_once-Posted}
use argus_core.Notifier.Worker.Posts as Posts
use argus_core.Notifier.Digest.{in_digest, band}
use argus_core.Notifier.Digest.Laws.{paths_partition}
use argus_core.Notifier.Digest.Run.{all_or_nothing, result-Ledger, result}
use argus_core.Tests.Samples.{
  clock, nobody, accepting, plain_format, scored, ranked, ranked_db, ranked-Distinct,
}

ranked-Ledger : Ledger ranked []
unfolding delivered_count find new_event
ranked-Ledger = record { at = λ i. ground arith }

-- Discord accepts the first message alone.
abbrev once : Discord ℕ
once = record { send = λ embeds w. (w == 0, w + 1) }

run_once-Posted_example :
    let s =
      run_once plain_format
        (Posts.clock plain_format clock once)
        (watched plain_format clock once)
        10
        70
        nobody
        ranked_db
        (0, []) in
    (notes : List Notification) × (s.db.notifications ≡ [] ++ notes)
    × Posted plain_format s.db.raw_events (batch 10 70 nobody ranked) s.world.1 notes
run_once-Posted_example =
    run_once-Posted plain_format clock once 10 70 nobody ranked_db 0 ranked-Distinct

result-Ledger_example :
    Ledger
      (result clock accepting 70 90 nobody ranked_db 0).db.raw_events
      (result clock accepting 70 90 nobody ranked_db 0).db.notifications
result-Ledger_example =
    result-Ledger clock accepting 70 90 nobody ranked_db 0 ranked-Distinct ranked-Ledger

all_or_nothing_example :
    (((band 70 90 nobody ranked ≡ []) ⊎ (true ≡ false))
      × ((result clock accepting 70 90 nobody ranked_db 0).returned ≡ 0)
      × ((result clock accepting 70 90 nobody ranked_db 0).db ≡ ranked_db))
    ⊎ ((t : ℕ) × (true ≡ true)
        × ((result clock accepting 70 90 nobody ranked_db 0).returned
            ≡ length (band 70 90 nobody ranked))
        × All
            (λ e.
              find e.id (result clock accepting 70 90 nobody ranked_db 0).db.raw_events
              ≡ some (delivered t e))
            (band 70 90 nobody ranked)
        × (length (result clock accepting 70 90 nobody ranked_db 0).db.notifications
            ≡ 0 + length (band 70 90 nobody ranked)))
all_or_nothing_example = all_or_nothing clock accepting 70 90 nobody ranked_db 0 ranked-Distinct

paths_partition_example :
    (selected 90 nobody (scored 1 95) ≡ true) × (in_digest 70 90 nobody (scored 1 95) ≡ false)
paths_partition_example = paths_partition 70 90 95 nobody (scored 1 95) refl refl refl (omega arith)

build_embed_bounds_example :
    (length (build_embed plain_format (scored 1 95)).title ≤ 256)
    × (3 ≤ length (build_embed plain_format (scored 1 95)).fields)
    × (length (build_embed plain_format (scored 1 95)).fields ≤ 6)
build_embed_bounds_example = build_embed_bounds plain_format (scored 1 95)

digest-Shows_example : Shows ranked (build_digest_embed ranked)
digest-Shows_example = digest-Shows ranked
