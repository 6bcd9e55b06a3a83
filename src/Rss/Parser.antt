-- ===== src/Rss/Parser.antt =====
-- src/argus/rss_poller/parser.py. `feedparser` is a third-party library: what it makes of the bytes of a
-- feed is a parameter, and an entry is given by the keys that the source reads.
use argus_core.Common.{
  ℕ, Bool, true, false, ◌&&◌, List, [], ◌∷◌, map, Option, none, some, if◌then◌else◌,
}
use argus_core.Common.Text.{Text, text_or}

-- A `time.struct_time`, by its first six fields.
pub record TimeTuple : Type 0 where
  pub year : ℕ
  pub month : ℕ
  pub day : ℕ
  pub hour : ℕ
  pub minute : ℕ
  pub second : ℕ

pub record Entry : Type 0 where
  pub title : Option Text
  pub description : Option Text
  pub summary : Option Text
  pub link : Option Text
  pub id : Option Text
  pub guid : Option Text
  pub published_parsed : Option TimeTuple
  pub updated_parsed : Option TimeTuple

pub record Parsed : Type 0 where
  pub bozo : Bool
  pub entries : List Entry

pub record FeedItem : Type 0 where
  pub title : Text
  pub body : Text
  pub url : Text
  pub guid : Text
  pub published : Option TimeTuple

-- `entry.get(key, "")`.
abbrev or_empty : Option Text → Text
or_empty none = []
or_empty (some t) = t

-- `_parse_date`.
unfoldable pub parse_date : Entry → Option TimeTuple
parse_date e = elim e.published_parsed [ some t ↦ some t | none ↦ e.updated_parsed ]

unfoldable pub item_of : Entry → FeedItem
unfolding parse_date
item_of e = record {
  title = or_empty e.title;
  body = text_or e.description (or_empty e.summary);
  url = or_empty e.link;
  guid = text_or e.id (text_or e.guid (or_empty e.link));
  published = parse_date e;
}

abbrev no_entries : List Entry → Bool
no_entries [] = true
no_entries (_ ∷ _) = false

-- `parse_feed`, after `feedparser.parse`.
unfoldable pub parse_feed : Parsed → List FeedItem
unfolding item_of
parse_feed p = if p.bozo && no_entries p.entries then [] else map item_of p.entries
