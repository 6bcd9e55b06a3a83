-- ===== src/Processor/Dedup.antt =====
-- src/argus/processor/dedup.py: titles that look alike, and the search for the original of an event.
pub mod Matcher
pub mod Original
pub mod Repost
use mathlib.Core.List.{reverse}
use argus_core.Common.{
  ℕ, ◌-◌, ◌≤◌, ◌≡◌, refl, Bool, true, false, not, ◌&&◌, ◌||◌, List, [], ◌∷◌, Option, none, some,
  arith, leb, ◌==◌, filter, if◌then◌else◌,
}
use argus_core.Common.Text.{Text, codes, text_eq}
use argus_core.Models.{Status, RawEvent, hours}
use argus_core.Unicode.{Unicode, ascii}
use Matcher.{Ratio, ratio_at_least}

abbrev pub similarity_threshold : Ratio
similarity_threshold = record { numerator = 3; denominator = 4 }

abbrev pub window_hours : ℕ
window_hours = 48

-- `_WS_RE.sub(" ", t)`: each run of white space becomes one space. The flag says that the
-- character before was white space.
collapse : (ℕ → Bool) → Bool → Text → Text
collapse space after [] = []
collapse space after (c ∷ t) =
    let rest = collapse space (space c) t in
    if space c then (if after then rest else 32 ∷ rest) else c ∷ rest

strip_left : (ℕ → Bool) → Text → Text
strip_left space [] = []
strip_left space (c ∷ t) = let rest = strip_left space t in if space c then rest else c ∷ t

-- `t.strip()`.
strip : (ℕ → Bool) → Text → Text
unfolding strip_left
strip space t = reverse (strip_left space (reverse (strip_left space t)))

-- `event.status.in_(("new", "processed", "sent"))`.
abbrev pub live : Status → Bool
live Status.new = true
live Status.processed = true
live Status.sent = true
live _ = false

ticker_is : Option Text → Text → Bool
ticker_is none t = false
ticker_is (some s) t = text_eq s t

ticker_is_null : Option Text → Bool
ticker_is_null none = true
ticker_is_null (some _) = false

-- The branch `if event.ticker: ... else: ...` of the query.
scope : RawEvent → RawEvent → Option Text → Bool
unfolding ticker_is ticker_is_null
scope event c (some (x ∷ t)) = ticker_is c.ticker (x ∷ t)
scope event c _ = ticker_is_null c.ticker && text_eq c.source event.source

-- The WHERE clause of `find_duplicate`, at the time `now`.
unfoldable pub candidate : ℕ → RawEvent → RawEvent → Bool
unfolding scope
candidate now event c =
    not (c.id == event.id)
    && (leb (now - hours window_hours) c.fetched_at
        && (live c.status && scope event c event.ticker))

module _ (u : Unicode) where
  unfoldable pub normalize_title : Text → Text
  unfolding collapse strip
  normalize_title title =
      strip u.is_space
        (collapse u.is_space false (filter (λ c. u.is_word c || u.is_space c) (u.lower title)))

  unfoldable pub titles_similar : Text → Text → Ratio → Bool
  unfolding normalize_title
  titles_similar a b threshold = ratio_at_least (normalize_title a) (normalize_title b) threshold

  first_similar : Text → List RawEvent → Option RawEvent
  first_similar title [] = none
  first_similar title (c ∷ cs) =
      if titles_similar title c.title similarity_threshold then some c else first_similar title cs

  -- `find_duplicate` at the time `now`, over the rows that the session sees.
  unfoldable pub find_duplicate : ℕ → RawEvent → List RawEvent → Option RawEvent
  unfolding first_similar
  find_duplicate now event rows = first_similar event.title (filter (candidate now event) rows)

normalized :
    normalize_title ascii (codes "  CEO Buys,  10% of Shares! ") ≡ codes "ceo buys 10 of shares"
unfolding normalize_title
normalized = refl
