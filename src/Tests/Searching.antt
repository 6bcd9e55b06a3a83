-- ===== src/Tests/Searching.antt =====
-- The theorems on the search for duplicates and on clusters, applied to sample rows.
use argus_core.Common.{
  ℕ, ◌≡◌, refl, Bool, false, List, [], ◌∷◌, some, none, length, arith, leb, if◌then◌else◌,
}
use argus_core.Common.Text.{Text, codes, text_eq}
use argus_core.Config.{get}
use argus_core.Models.{RawEvent, new_event}
use argus_core.Unicode.{ascii}
use argus_core.Processor.Dedup.{normalize_title, titles_similar, find_duplicate, candidate}
use argus_core.Processor.Dedup.Matcher.{ratio_at_least}
use argus_core.Processor.Dedup.Original.{Original, find_duplicate-Original}
use argus_core.Processor.Dedup.Repost.{Reposted, find_duplicate-repost}
use argus_core.Store.{find}
use argus_core.Processor.Cluster.{cluster_rows, find_form4_clusters}
use argus_core.Processor.Cluster.Groups.{share, find_form4_clusters_lem}
use argus_core.Tests.Samples.{
  at_noon, first_new, second_new, third_new, news, news-Distinct, draft_of,
}

alike : find_duplicate ascii at_noon first_new news ≡ some second_new
unfolding find_duplicate normalize_title titles_similar candidate new_event text_eq ratio_at_least
alike = refl

find_duplicate-Original_example : Original ascii at_noon first_new news second_new
find_duplicate-Original_example =
    find_duplicate-Original ascii at_noon first_new news second_new news-Distinct alike

alone : find_duplicate ascii at_noon third_new news ≡ none
unfolding find_duplicate normalize_title titles_similar candidate new_event text_eq ratio_at_least
alone = refl

abbrev filing : ℕ → Text → RawEvent
filing id ticker = record (new_event id at_noon (draft_of [] [] (some ticker))) {
  source = codes "sec_form4";
}

abbrev filings : List RawEvent
filings = filing 1 (codes "PFE") ∷ filing 2 (codes "ABC") ∷ filing 3 (codes "PFE") ∷ []

abbrev ahead : Text → Text → Bool
ahead a b = false

find_form4_clusters_example : get (codes "PFE") (find_form4_clusters ahead 0 2 filings) ≡ (
    if leb 2 (length (share (codes "PFE") (cluster_rows ahead 0 filings)))
    then some (share (codes "PFE") (cluster_rows ahead 0 filings))
    else none)
find_form4_clusters_example = find_form4_clusters_lem ahead 0 2 filings (codes "PFE") (omega arith)

-- The first headline once more, in capitals and without its ticker's news.
abbrev repost : RawEvent
repost =
    record (new_event 4 at_noon
      (draft_of (codes "e") (codes "FDA CLEARS drug?") (some (codes "PFE")))) { body = [] }

reposted : Reposted ascii at_noon repost news first_new
unfolding find new_event normalize_title
reposted = record {
  there = refl;
  other = λ p. ground arith;
  live_status = refl;
  recent = omega arith;
  same_scope = refl;
  same_title = refl;
}

find_duplicate-repost_example :
    (o : RawEvent) × (find_duplicate ascii at_noon repost news ≡ some o)
    × Original ascii at_noon repost news o
find_duplicate-repost_example =
    find_duplicate-repost ascii at_noon repost news first_new reposted news-Distinct
