-- ===== src/Tests/Retrieving.antt =====
-- The theorems on the requests to EDGAR, applied to a search that answers at the second attempt, with one
-- filing and one hit without a file.
use argus_core.Common.{ℕ, suc, ◌≡◌, ◌⊎◌, refl, ◌==◌, if◌then◌else◌, List, [], ◌∷◌, some, none}
use argus_core.Common.Text.{Text, codes, text_eq}
use argus_core.Store.{empty}
use argus_core.Unicode.{ascii}
use argus_core.Http.{Attempt, returned, status_error, after}
use argus_core.Http.Calls.{Decided}
use argus_core.Llm.Json.{
  Json, text, number, array, object, Items, end, item, Members, done, member, lookup,
}
use argus_core.Sec.Search.{strip_zeros, search_urls}
use argus_core.Sec.Search.Listing.{
  Hit, file, other, texts, Shown, Result, places, search_urls-places,
}
use argus_core.Sec.Fetch.{Edgar, attempts, over_http, poll, search-cases}
use argus_core.Sec.Pipeline.{run}
use argus_core.Sec.Pipeline as Filings
use argus_core.Tests.Filing.{numerals, thresholds, edgar}

abbrev hits : List Hit
hits =
    other (codes "0001769628-26-000317") []
    ∷ file (codes "0001769628-26-000318") (codes "form4.xml")
        (codes "0001769628" ∷ codes "0000078003" ∷ [])
    ∷ []

-- The search also says how many hits there are, and a hit says how well it fits.
abbrev filing_hit : Text → List Text → Members
filing_hit id ciks = member (codes "_score") (number 1) (
    member (codes "_id") (text id)
      (member (codes "_source") (object (member (codes "ciks") (array (texts ciks)) done)) done))

abbrev found_hits : Items
found_hits = item (object (filing_hit (codes "0001769628-26-000317") [])) (
    item
      (object (
        filing_hit (codes "0001769628-26-000318:form4.xml")
          (codes "0001769628" ∷ codes "0000078003" ∷ [])))
      end)

abbrev search_result : Json
search_result = object (
    member (codes "took") (number 12) (
      member (codes "hits")
        (object (member (codes "total") (number 2) (member (codes "hits") (array found_hits) done)))
        done))

shown : (id : Text) (ciks : List Text) → Shown (object (filing_hit id ciks)) id ciks
unfolding lookup text_eq
shown id ciks = record {
  members = filing_hit id ciks;
  source = member (codes "ciks") (array (texts ciks)) done;
  is_object = refl;
  has_id = refl;
  has_source = refl;
  has_ciks = refl;
}

searched : Result search_result hits
unfolding lookup text_eq
searched = record {
  members = _;
  outer = _;
  hits = found_hits;
  is_object = refl;
  has_hits = refl;
  has_list = refl;
  listed = (shown _ _, (shown _ _, tt));
}

search_urls-places_example :
    search_urls search_result
    ≡ some
        (codes "https://www.sec.gov/Archives/edgar/data/1769628/000176962826000318/form4.xml" ∷ [])
unfolding places strip_zeros
search_urls-places_example = search_urls-places search_result hits searched (refl, (refl, tt))

abbrev busy_search : ℕ → Attempt Json
busy_search n = if n == 1 then status_error 503 (after 1000) else returned search_result

abbrev http : Edgar ℕ Text
http = record {
  jitter = λ n. 0;
  found = λ since w. busy_search;
  after_search = λ since w. suc w;
  file = λ url w n. returned [];
  after_file = λ url w. suc w;
  lookup_error = λ j. [];
  document = λ b. none;
}

search-cases_example :
    let ended = poll http ascii numerals thresholds edgar (codes "2026-01-01") empty 0 in
    (k : ℕ) × Decided http.jitter (attempts http (codes "2026-01-01") 0) k
    × (((urls : List Text) × ((j : Json) × (busy_search k ≡ returned j)
            × (search_urls j ≡ some urls))
          × (ended
              ≡ run ascii numerals thresholds
                  (over_http http edgar)
                  (some urls)
                  (codes "2026-01-01")
                  empty
                  1))
        ⊎ (((j : Json) → busy_search k ≡ returned j → search_urls j ≡ none)
            × (ended ≡ Filings.raised)))
search-cases_example =
    search-cases http ascii numerals thresholds edgar (codes "2026-01-01") empty 0
