-- ===== src/Notifier/Embeds.antt =====
-- `build_embed` of src/argus/notifier/discord.py, and what its embeds share. The texts of money amounts
-- are printed by Python's float formatting, which is a parameter.
pub mod Limits
use argus_core.Common.{
  ℕ, ◌+◌, ◌-◌, ◌*◌, ◌/◌, ◌≡◌, refl, Bool, true, false, List, [], ◌∷◌, ◌++◌, map, Option, none, some,
  arith, leb, ltb, length, take, if◌then◌else◌,
}
use argus_core.Common.Sort.{sort_by}
use argus_core.Common.Text.{Text, codes, text_eq, truthy, text_or, join, decimal}
use argus_core.Models.{RawEvent, PollerMeta}

-- `f"{v / 1_000_000:.2f}"`, `f"{v / 1000:.0f}"` and `f"{v:,.0f}"` of an amount `v`.
pub record FloatFormat : Type 0 where
  pub millions : ℕ → Text
  pub thousands : ℕ → Text
  pub grouped : ℕ → Text

pub record Field : Type 0 where
  pub name : Text
  pub value : Text
  pub inline : Option Bool

pub record Embed : Type 0 where
  pub title : Text
  pub url : Option Text
  pub description : Option Text
  pub color : ℕ
  pub fields : List Field
  pub footer : Option Text

abbrev pub color_positive : ℕ
color_positive = 3066993

abbrev pub color_negative : ℕ
color_negative = 15158332

abbrev pub color_neutral : ℕ
color_neutral = 9807270

abbrev pub color_alert : ℕ
color_alert = 15105570

-- `_SOURCE_LABEL.get(source, source)`.
source_label : Text → Text
source_label source =
    if text_eq source (codes "sec_form4")
    then codes "SEC Form 4"
    else if text_eq source (codes "rss")
    then codes "RSS"
    else source

color_for : Option Text → ℕ
color_for none = color_neutral
color_for (some s) =
    if text_eq s (codes "positive")
    then color_positive
    else if text_eq s (codes "negative")
    then color_negative
    else color_neutral

-- A key of `poller_meta`, which may be NULL.
abbrev pub meta_text : (PollerMeta → Option Text) → Option PollerMeta → Option Text
meta_text field none = none
meta_text field (some m) = field m

abbrev pub meta_value : Option PollerMeta → Option ℕ
meta_value none = none
meta_value (some m) = m.value_usd

-- An amount in dollars, as the millionths in which the model counts.
abbrev pub dollars : ℕ → ℕ
dollars n = n * 1000000

-- `f"{event.relevance_score}"`.
pub show_score : Option ℕ → Text
show_score none = codes "None"
show_score (some n) = decimal n

module _ (fmt : FloatFormat) where
  format_value : Option ℕ → Text
  format_value none = codes "n/a"
  format_value (some v) =
      if leb (dollars 1000000) v
      then codes "$" ++ (fmt.millions v ++ codes "M")
      else codes "$" ++ (fmt.thousands v ++ codes "k")

  -- The entry of `title_parts`.
  action_parts : Option Text → List Text
  action_parts none = []
  action_parts (some []) = []
  action_parts (some (c ∷ code)) =
      (if text_eq (c ∷ code) (codes "P")
        then codes "INSIDER BUY"
        else if text_eq (c ∷ code) (codes "S")
        then codes "INSIDER SALE"
        else codes "FORM 4 (" ++ (c ∷ code ++ codes ")"))
      ∷ []

  title_parts : RawEvent → List Text
  title_parts event =
      let label = source_label event.source in
      if truthy event.ticker
      then action_parts (meta_text (λ m. m.transaction_type) event.poller_meta)
        ++ (text_or event.ticker [] ∷ label ∷ [])
      else label ∷ []

  base_fields : RawEvent → List Field
  base_fields event =
      record { name = codes "Source"; value = source_label event.source; inline = some true }
      ∷ record {
        name = codes "Relevance";
        value = show_score event.relevance_score ++ codes "/100";
        inline = some true;
      }
      ∷ record {
        name = codes "Sentiment";
        value = text_or event.sentiment (codes "neutral");
        inline = some true;
      }
      ∷ []

  filer_fields : RawEvent → List Field
  filer_fields event =
      let filer = meta_text (λ m. m.filer_name) event.poller_meta in
      if truthy filer
      then record { name = codes "Filer"; value = text_or filer []; inline = some true }
        ∷ record {
          name = codes "Value";
          value = format_value (meta_value event.poller_meta);
          inline = some true;
        }
        ∷ []
      else []

  summary_fields : RawEvent → List Field
  summary_fields event =
      if truthy event.llm_summary
      then record { name = codes "Summary"; value = text_or event.llm_summary []; inline = none }
        ∷ []
      else []

  pub build_embed : RawEvent → Embed
  unfolding title_parts base_fields filer_fields summary_fields action_parts
  build_embed event = record {
    title = take 256 (join (codes " | ") (title_parts event));
    url = some event.url;
    description = none;
    color = color_for event.sentiment;
    fields = base_fields event ++ (filer_fields event ++ summary_fields event);
    footer = some (codes "ArgusCore • DeepSeek");
  }
