-- ===== src/Notifier/Summaries.antt =====
-- `build_digest_embed` and `build_cluster_embed` of src/argus/notifier/discord.py.
use argus_core.Common.{
  ℕ, ◌+◌, ◌-◌, Bool, false, List, [], ◌∷◌, ◌++◌, map, Option, none, some, leb, ltb, length, take,
  if◌then◌else◌,
}
use argus_core.Common.Sort.{sort_by}
use argus_core.Common.Text.{Text, codes, text_eq, truthy, text_or, join, decimal}
use argus_core.Models.{RawEvent}
use argus_core.Notifier.Embeds.{
  FloatFormat, Embed, color_alert, color_neutral, meta_text, meta_value, show_score,
}

abbrev pub digest_max_items : ℕ
digest_max_items = 10

-- The sort key `e.relevance_score or 0`.
abbrev pub score_key : RawEvent → ℕ
score_key e = elim e.relevance_score [ none ↦ 0 | some n ↦ n ]

-- `sorted(events, key=..., reverse=True)`, which keeps the order of equal keys.
unfoldable pub by_score : List RawEvent → List RawEvent
by_score = sort_by (λ a b. leb (score_key b) (score_key a))

pub digest_line : RawEvent → Text
digest_line e =
    let ticker : Text =
      if truthy e.ticker then codes "`" ++ (text_or e.ticker [] ++ codes "` ") else [] in
    codes "**["
    ++ (e.title
        ++ (codes "]("
            ++ (e.url
                ++ (codes ")** — " ++ (ticker ++ (show_score e.relevance_score ++ codes "/100"))))))

-- The lines of the description.
unfoldable pub digest_lines : List RawEvent → List Text
unfolding digest_line by_score
digest_lines events = map digest_line (take digest_max_items (by_score events))

unfoldable pub build_digest_embed : List RawEvent → Embed
build_digest_embed events =
    let ordered = by_score events in
    record {
      title = codes "Daily Digest — " ++ (decimal (length ordered) ++ codes " Events");
      url = none;
      description = some (join (codes "\n") (digest_lines events));
      color = color_neutral;
      fields = [];
      footer =
          if ltb digest_max_items (length ordered)
          then some (codes "+" ++ (decimal (length ordered - digest_max_items) ++ codes " weitere"))
          else none;
    }

abbrev pub cluster_max_items : ℕ
cluster_max_items = 10

abbrev pub or_zero : Option ℕ → ℕ
or_zero none = 0
or_zero (some n) = n

has_type : Text → RawEvent → Bool
has_type code m = elim (meta_text (λ x. x.transaction_type) m.poller_meta) [
  | none ↦ false
  | some c ↦ text_eq c code
]

-- `sum(value_usd for m in members if transaction_type == code)`.
volume : Text → List RawEvent → ℕ
unfolding has_type
volume code [] = 0
volume code (m ∷ ms) =
    if has_type code m then or_zero (meta_value m.poller_meta) + volume code ms else volume code ms

-- `meta.get(key, default)`.
abbrev get_text : Option Text → Text → Text
get_text none d = d
get_text (some t) d = t

module _ (fmt : FloatFormat) (upper : Text → Text) where
  cluster_line : RawEvent → Text
  cluster_line m =
      codes "• "
      ++ (get_text (meta_text (λ x. x.filer_name) m.poller_meta) (codes "?")
          ++ (codes " ("
              ++ (text_or (meta_text (λ x. x.filer_role) m.poller_meta) (codes "—")
                  ++ (codes ") — "
                      ++ (get_text (meta_text (λ x. x.transaction_type) m.poller_meta) (codes "?")
                          ++ (codes " $" ++ fmt.grouped (or_zero (meta_value m.poller_meta))))))))

  cluster_lines : List RawEvent → List Text
  unfolding cluster_line
  cluster_lines members = map cluster_line (sort_by (λ a b. leb a.fetched_at b.fetched_at) members)

  pub build_cluster_embed : Text → List RawEvent → Embed
  build_cluster_embed ticker members =
      let lines = cluster_lines members in
      let more : Text =
        if ltb cluster_max_items (length lines)
        then codes "\n+" ++ (decimal (length lines - cluster_max_items) ++ codes " more")
        else [] in
      record {
        title = codes "Form 4 Cluster — " ++ upper ticker;
        url = none;
        description = some (
            decimal (length members)
            ++ (codes " filings in 48h\nBuys: $"
                ++ (fmt.grouped (volume (codes "P") members)
                    ++ (codes " · Sells: $"
                        ++ (fmt.grouped (volume (codes "S") members)
                            ++ (codes "\n"
                                ++ (join (codes "\n") (take cluster_max_items lines) ++ more)))))));
        color = color_alert;
        fields = [];
        footer = none;
      }
