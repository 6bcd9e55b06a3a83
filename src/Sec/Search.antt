-- ===== src/Sec/Search.antt =====
-- src/argus/sec_poller/edgar.py: `list_recent_form4_urls` and `_hit_to_url`, on the JSON that the search
-- returns. `none` is an exception: an AttributeError, a TypeError or a KeyError.
pub mod Listing
use argus_core.Common.{
  ℕ, ◌≡◌, refl, Bool, true, false, not, List, [], ◌∷◌, ◌++◌, Option, none, some, ◌>>=◌, ◌==◌,
  filter, if◌then◌else◌,
}
use argus_core.Common.Text.{Text, codes, text_eq}
use argus_core.Http.{Attempt, returned, status_error, raised}
use argus_core.Llm.Json.{
  Json, null, boolean, number, text, array, object, Items, end, item, Members, done, member, lookup,
}

-- `j.get(key, default)`.
unfoldable pub get_or : Text → Json → Json → Option Json
get_or key default (object ms) = elim (lookup key ms) [ none ↦ some default | some j ↦ some j ]
get_or key default _ = none

-- The truth value of a value.
unfoldable pub true_of : Json → Bool
true_of null = false
true_of (boolean b) = b
true_of (number n) = not (n == 0)
true_of (text []) = false
true_of (text (_ ∷ _)) = true
true_of (array end) = false
true_of (array (item _ _)) = true
true_of (object done) = false
true_of (object (member _ _ _)) = true

-- `hit_id.partition(":")`: `none` if there is no colon.
unfoldable pub partition_colon : Text → Option (Text × Text)
partition_colon [] = none
partition_colon (c ∷ t) =
    if c == b':'
    then some ([], t)
    else elim (partition_colon t) [ none ↦ none | some (a, b) ↦ some (c ∷ a, b) ]

-- `t.lstrip("0")`.
unfoldable pub strip_zeros : Text → Text
strip_zeros [] = []
strip_zeros (c ∷ t) = let rest = strip_zeros t in if c == b'0' then rest else c ∷ t

-- The path of a file in the archive.
abbrev pub archive_url : Text → Text → Text → Text
archive_url cik adsh filename =
    codes "https://www.sec.gov/Archives/edgar/data/"
    ++ (strip_zeros cik
        ++ (codes "/" ++ (filter (λ c. not (c == b'-')) adsh ++ (codes "/" ++ filename))))

-- `":" in hit_id` for a list.
colon_among : Items → Bool
colon_among end = false
colon_among (item (text t) js) =
    let rest = colon_among js in if text_eq t (codes ":") then true else rest
colon_among (item _ js) = colon_among js

-- The parts of `hit_id`, or that it has no colon. A list or a dict with the entry ":" has no `partition`.
unfoldable pub parts_of : Json → Option (Option (Text × Text))
unfolding colon_among
parts_of (text t) = some (partition_colon t)
parts_of (array js) = if colon_among js then none else some none
parts_of (object ms) = elim (lookup (codes ":") ms) [ none ↦ some none | some _ ↦ none ]
parts_of _ = none

-- `ciks[0].lstrip("0")` needs a text.
unfoldable pub first_cik : Json → Option Text
first_cik (array (item (text t) js)) = some t
first_cik (text (c ∷ t)) = some (c ∷ [])
first_cik _ = none

-- The second half of `_hit_to_url`, after `ciks = ... or []`.
unfoldable pub url_of : Text → Text → Json → Option (Option Text)
unfolding true_of first_cik
url_of adsh [] ciks = some none
url_of adsh (f ∷ filename) ciks =
    if true_of ciks
    then elim (first_cik ciks) [
      | none ↦ none
      | some cik ↦ some (some (archive_url cik adsh (f ∷ filename)))
    ]
    else some none

unfoldable pub source_url : Json → Option (Text × Text) → Option (Option Text)
unfolding url_of get_or
source_url hit none = some none
source_url hit (some (adsh, filename)) = do
  source ← get_or (codes "_source") (object done) hit
  ciks ← get_or (codes "ciks") null source
  url_of adsh filename ciks

-- `_hit_to_url`.
unfoldable pub hit_to_url : Json → Option (Option Text)
unfolding source_url parts_of get_or
hit_to_url hit = do
  hit_id ← get_or (codes "_id") (text []) hit
  parts ← parts_of hit_id
  source_url hit parts

pub added : Option Text → List Text → List Text
added none urls = urls
added (some url) urls = url ∷ urls

-- The loop of `list_recent_form4_urls`, which passes malformed hits over.
unfoldable pub urls_of : Items → Option (List Text)
unfolding added hit_to_url
urls_of end = some []
urls_of (item hit hits) =
    let rest = urls_of hits in do url ← hit_to_url hit; urls ← rest; some (added url urls)

-- What `for` goes over. The characters of a text, or the keys of a dict, are no hits.
unfoldable pub iterated : Json → Option Items
iterated (array js) = some js
iterated (text []) = some end
iterated (object done) = some end
iterated _ = none

-- `list_recent_form4_urls`, from `res.json()` on.
unfoldable pub search_urls : Json → Option (List Text)
unfolding get_or iterated urls_of
search_urls data_ = do
  outer ← get_or (codes "hits") (object done) data_
  inner ← get_or (codes "hits") (array end) outer
  hits ← iterated inner
  urls_of hits
