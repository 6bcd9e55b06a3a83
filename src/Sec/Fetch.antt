-- ===== src/Sec/Fetch.antt =====
-- The two requests of src/argus/sec_poller/edgar.py, `list_recent_form4_urls` and `fetch_filing_xml`, and the
-- run of src/argus/sec_poller/pipeline.py that makes them. What EDGAR answers to the n-th request, the text of
-- an error, and what lxml makes of a document are parameters.
use argus_core.Common.{
  ℕ, ◌≡◌, ◌≢◌, ◌⊎◌, inl, inr, refl, List, Option, none, some, ◌>>=◌, Option-cases,
}
use argus_core.Common.Text.{Text}
use argus_core.Store.{Db}
use argus_core.Unicode.{Unicode}
use argus_core.Http.{Attempt, returned, status_error, raised}
use argus_core.Http.Calls.{Decided, Ends, awaited, awaited-Ends}
use argus_core.Llm.Json.{Json}
use argus_core.Sec.Edgar.{Document, Numerals}
use argus_core.Sec.Search.{search_urls}
use argus_core.Sec.Pipeline.{Form4Filter, SecEnv, run}
use argus_core.Sec.Pipeline as Filings

-- EDGAR, and the jitter of the delays.
pub record Edgar (W B : Type 0) : Type 0 where
  pub jitter : ℕ → ℕ
  pub found : Text → W → ℕ → Attempt Json
  pub after_search : Text → W → W
  pub file : Text → W → ℕ → Attempt B
  pub after_file : Text → W → W
  pub lookup_error : Json → Text
  pub document : B → Option Document

module _ {W B : Type 0} (edgar : Edgar W B) where
  -- The rest of an attempt of the search, which an ill-formed result makes raise.
  read_urls : Json → Option (List Text) → Attempt (List Text)
  read_urls j none = raised (edgar.lookup_error j)
  read_urls j (some urls) = returned urls

  unfoldable pub attempt : Attempt Json → Attempt (List Text)
  unfolding read_urls
  attempt (returned j) = read_urls j (search_urls j)
  attempt (status_error s h) = status_error s h
  attempt (raised m) = raised m

  abbrev pub attempts : Text → W → ℕ → Attempt (List Text)
  attempts since w n = attempt (edgar.found since w n)

  -- `list_recent_form4_urls(since)`.
  unfoldable pub list_recent_form4_urls : Text → W → Option (List Text) × W
  list_recent_form4_urls since w =
      (awaited edgar.jitter (attempts since w), edgar.after_search since w)

  -- `fetch_filing_xml(url)`, and what lxml makes of the bytes.
  unfoldable pub fetch_filing_xml : Text → W → Option Document × W
  fetch_filing_xml url w =
      (awaited edgar.jitter (edgar.file url w) >>= edgar.document, edgar.after_file url w)

  -- What an attempt that did not return URLs had found.
  Nothing : Attempt Json → Type 0
  Nothing x = (j : Json) → x ≡ returned j → search_urls j ≡ none

  Something : Attempt Json → List Text → Type 0
  Something x urls = (j : Json) × (x ≡ returned j) × (search_urls j ≡ some urls)

  read_urls-some :
      (j : Json) (o : Option (List Text)) (urls : List Text)
      → read_urls j o ≡ returned urls
      → o ≡ some urls
  unfolding read_urls
  read_urls-some j none urls h = absurd (cc)
  read_urls-some j (some found) urls h = cc

  attempt-Something :
      (x : Attempt Json) (urls : List Text) → attempt x ≡ returned urls → Something x urls
  unfolding attempt Something
  attempt-Something (returned j) urls h = (j, refl, read_urls-some j (search_urls j) urls h)
  attempt-Something (status_error s t) urls h = absurd (cc)
  attempt-Something (raised m) urls h = absurd (cc)

  attempt-Nothing :
      (x : Attempt Json) → ((urls : List Text) → attempt x ≢ returned urls) → Nothing x
  unfolding attempt Nothing read_urls
  attempt-Nothing x never j e = elim (Option-cases (search_urls j)) [
    | inl none_there ↦ none_there
    | inr (urls, some_there) ↦ absurd (never urls (rw (e, some_there) refl))
  ]

  -- The pipeline with its client.
  abbrev pub over_http : SecEnv W → SecEnv W
  over_http env = record env { fetch = fetch_filing_xml }

  module _ (u : Unicode) (numerals : Numerals) (filter : Form4Filter) (env : SecEnv W) where
    -- `SecPipeline.run`, with the requests that it makes.
    unfoldable pub poll : Text → Db → W → Filings.Ended u numerals filter (over_http env)
    unfolding list_recent_form4_urls
    poll since db w =
        let (urls, w') = list_recent_form4_urls since w in
        run u numerals filter (over_http env) urls since db w'

    -- A run of the SEC pipeline makes at least one search request and at most three. All but the
    -- last were answered with a retryable status. Either the last one returned a result from
    -- which URLs were read, and the run is the run over those URLs, each of which it requests in
    -- the same way; or it returned none or an ill-formed one, and the run raises.
    pub search-cases :
        (since : Text) (db : Db) (w : W)
        → let found = edgar.found since w in
          (k : ℕ) × Decided edgar.jitter (attempts since w) k
          × (((urls : List Text) × ((j : Json) × (found k ≡ returned j)
                  × (search_urls j ≡ some urls))
                × (poll since db w
                    ≡ run u numerals filter
                        (over_http env)
                        (some urls)
                        since
                        db
                        (edgar.after_search since w)))
              ⊎ (((j : Json) → found k ≡ returned j → search_urls j ≡ none)
                  × (poll since db w ≡ Filings.raised)))
    unfolding poll Ends Something Nothing list_recent_form4_urls
    search-cases since db w =
        let (k, decided, e) = awaited-Ends edgar.jitter (attempts since w) in
        (
          k,
          decided,
          elim e [
            | inl (urls, shown, got) ↦
                inl (urls, attempt-Something (edgar.found since w k) urls shown, rw got refl)
            | inr (never, got) ↦
                inr (attempt-Nothing (edgar.found since w k) never, rw got (unfold run in refl))
          ],
        )
