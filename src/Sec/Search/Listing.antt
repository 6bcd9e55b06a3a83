-- ===== src/Sec/Search/Listing.antt =====
-- The URLs that `list_recent_form4_urls` of src/argus/sec_poller/edgar.py reads from a search result of the
-- documented form.
use argus_core.Common.{
  ℕ, ◌≡◌, refl, ap, ◌∙◌, false, List, [], ◌∷◌, ◌++◌, Option, none, some, ◌==◌, All, any, arith,
}
use argus_core.Common.Text.{Text, codes}
use argus_core.Llm.Json.{Json, null, text, array, object, Items, end, item, Members, done, lookup}
use argus_core.Sec.Search.{
  get_or, true_of, partition_colon, archive_url, parts_of, first_cik, url_of, source_url,
  hit_to_url, added, urls_of, iterated, search_urls,
}

-- A hit: a file of a filing, with the CIKs of the filing, or an id without a colon.
pub data Hit : Type 0 where
  file : Text → Text → List Text → Hit
  other : Text → List Text → Hit

abbrev pub NoColon : Text → Type 0
NoColon t = any (λ c. c == b':') t ≡ false

-- The part of the id before the first colon is free of colons.
abbrev pub Proper : Hit → Type 0
Proper (file adsh name ciks) = NoColon adsh
Proper (other id ciks) = NoColon id

unfoldable pub texts : List Text → Items
texts [] = end
texts (t ∷ ts) = item (text t) (texts ts)

-- A hit as JSON, with the CIKs where the code looks for them. It may have any other members.
pub record Shown (j : Json) (id : Text) (ciks : List Text) : Type 0 where
  pub members : Members
  pub source : Members
  pub is_object : j ≡ object members
  pub has_id : lookup (codes "_id") members ≡ some (text id)
  pub has_source : lookup (codes "_source") members ≡ some (object source)
  pub has_ciks : lookup (codes "ciks") source ≡ some (array (texts ciks))

abbrev pub Listed : Json → Hit → Type 0
Listed j (file adsh name ciks) = Shown j (adsh ++ b':' ∷ name) ciks
Listed j (other id ciks) = Shown j id ciks

abbrev pub AllListed : Items → List Hit → Type 0
AllListed end [] = Unit
AllListed (item j js) (h ∷ hs) = Listed j h × AllListed js hs
AllListed _ _ = ⊥

-- The result of a search, with any other members.
pub record Result (j : Json) (hs : List Hit) : Type 0 where
  pub members : Members
  pub outer : Members
  pub hits : Items
  pub is_object : j ≡ object members
  pub has_hits : lookup (codes "hits") members ≡ some (object outer)
  pub has_list : lookup (codes "hits") outer ≡ some (array hits)
  pub listed : AllListed hits hs

-- Where a hit is found: under the first of its CIKs.
abbrev pub place : Hit → Option Text
place (other id ciks) = none
place (file adsh name []) = none
place (file adsh [] (cik ∷ _)) = none
place (file adsh (c ∷ name) (cik ∷ _)) = some (archive_url cik adsh (c ∷ name))

unfoldable pub places : List Hit → List Text
places [] = []
places (h ∷ hs) = elim (place h) [ none ↦ places hs | some url ↦ url ∷ places hs ]

any-none : (c : ℕ) (t : Text) → NoColon (c ∷ t) → ((c == b':') ≡ false) × NoColon t
any-none c t h = ground arith

partition_colon-file :
    (adsh name : Text) → NoColon adsh → partition_colon (adsh ++ b':' ∷ name) ≡ some (adsh, name)
unfolding partition_colon
partition_colon-file [] name h = refl
partition_colon-file (c ∷ t) name h =
    let (differs, rest) = any-none c t h in rw (differs, partition_colon-file t name rest) refl

partition_colon-other : (id : Text) → NoColon id → partition_colon id ≡ none
unfolding partition_colon
partition_colon-other [] h = refl
partition_colon-other (c ∷ t) h =
    let (differs, rest) = any-none c t h in rw (differs, partition_colon-other t rest) refl

get_or-member :
    (key : Text) (default : Json) (ms : Members) (j : Json)
    → lookup key ms ≡ some j
    → get_or key default (object ms) ≡ some j
unfolding get_or
get_or-member key default ms j h = rw (h, get_or) refl

shown_url :
    (j : Json) (id : Text) (ciks : List Text) (parts : Option (Text × Text))
    → Shown j id ciks
    → partition_colon id ≡ parts
    → hit_to_url j ≡ source_url j parts
unfolding hit_to_url parts_of
shown_url j id ciks parts h p =
    rw (h.is_object, get_or-member (codes "_id") (text []) h.members (text id) h.has_id, p) refl

source_url-other : (j : Json) → source_url j none ≡ some none
unfolding source_url
source_url-other j = refl

source_url-file :
    (j : Json) (id adsh name : Text) (ciks : List Text)
    → Shown j id ciks
    → source_url j (some (adsh, name)) ≡ url_of adsh name (array (texts ciks))
unfolding source_url
source_url-file j id adsh name ciks h =
    rw
      (
        h.is_object,
        get_or-member (codes "_source") (object done) h.members (object h.source) h.has_source,
        get_or-member (codes "ciks") null h.source (array (texts ciks)) h.has_ciks,
      )
      refl

url_of-place :
    (adsh name : Text) (ciks : List Text)
    → url_of adsh name (array (texts ciks)) ≡ some (place (file adsh name ciks))
unfolding url_of true_of first_cik texts
url_of-place adsh [] [] = refl
url_of-place adsh [] (cik ∷ ciks) = refl
url_of-place adsh (c ∷ name) [] = refl
url_of-place adsh (c ∷ name) (cik ∷ ciks) = refl

hit_to_url-place : (j : Json) (h : Hit) → Listed j h → Proper h → hit_to_url j ≡ some (place h)
hit_to_url-place j (other id ciks) l h =
    shown_url j id ciks none l (partition_colon-other id h) ∙ source_url-other j
hit_to_url-place j (file adsh name ciks) l h =
    shown_url j (adsh ++ b':' ∷ name) ciks (some (adsh, name)) l (partition_colon-file adsh name h)
    ∙ source_url-file j (adsh ++ b':' ∷ name) adsh name ciks l
    ∙ url_of-place adsh name ciks

added-place :
    (o : Option Text) (urls : List Text)
    → added o urls ≡ elim o [ none ↦ urls | some url ↦ url ∷ urls ]
unfolding added
added-place none urls = refl
added-place (some url) urls = refl

urls_of-places :
    (js : Items) (hs : List Hit) → AllListed js hs → All Proper hs → urls_of js ≡ some (places hs)
unfolding urls_of places
urls_of-places end [] l h = refl
urls_of-places end (x ∷ hs) l h = absurd l
urls_of-places (item j js) [] l h = absurd l
urls_of-places (item j js) (x ∷ hs) (l, ls) (p, h) =
    rw (hit_to_url-place j x l p, urls_of-places js hs ls h)
      (ap some (added-place (place x) (places hs)))

-- A search result of EDGAR has a list of hits, each with an id and a list of CIKs that are texts,
-- and any other members. If every id either consists of an accession number without a colon, a
-- colon and a file name, or has no colon, then the search returns, in the order of the hits, the
-- archive URLs of those that have a file name and a CIK, and passes the others over without an
-- exception.
pub search_urls-places :
    (j : Json) (hs : List Hit) → Result j hs → All Proper hs → search_urls j ≡ some (places hs)
unfolding search_urls iterated
search_urls-places j hs r h =
    rw
      (
        r.is_object,
        get_or-member (codes "hits") (object done) r.members (object r.outer) r.has_hits,
        get_or-member (codes "hits") (array end) r.outer (array r.hits) r.has_list,
      )
      (urls_of-places r.hits hs r.listed h)
