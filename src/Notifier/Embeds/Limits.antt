-- ===== src/Notifier/Embeds/Limits.antt =====
-- The sizes of the embeds of src/argus/notifier/discord.py, and which events a digest shows.
use mathlib.Core.List.{Perm}
use mathlib.Core.Path.{subst}
use argus_core.Common.{
  ℕ, ◌-◌, ◌≤◌, ◌≡◌, refl, ◌∙◌, Bool, List, [], ◌∷◌, ◌++◌, map, zero, suc, Option, none, some, arith,
  leb, ltb, leb→le, length, take, drop, min, length-take, length-append, All, All-map, All-take,
  if◌then◌else◌, sym, ap, take-append-drop,
}
use argus_core.Common.Text.{Text, codes, join, decimal}
use argus_core.Common.Sort.{length-sort_by}
use argus_core.Common.Sort.Order.{
  IsTotal, IsSorted, sort_by-IsSorted, sort_by-perm, take-before-drop,
}
use argus_core.Models.{RawEvent}
use argus_core.Notifier.Embeds.{
  FloatFormat, Embed, build_embed, filer_fields, summary_fields, title_parts,
}
use argus_core.Notifier.Summaries.{
  by_score, score_key, digest_lines, digest_max_items, digest_line, build_digest_embed,
}

length-take-le {ℓ} : {A : Type ℓ} (n : ℕ) (xs : List A) → length (take n xs) ≤ n
length-take-le n xs = omega (arith, length-take n xs)

module _ (fmt : FloatFormat) (e : RawEvent) where
  filer_fields-le : length (filer_fields fmt e) ≤ 2
  unfolding filer_fields
  filer_fields-le = ground arith

  summary_fields-le : length (summary_fields fmt e) ≤ 1
  unfolding summary_fields
  summary_fields-le = ground arith

  -- An alert has a title of at most 256 characters, and at least three and at most six fields.
  pub build_embed_bounds :
      (length (build_embed fmt e).title ≤ 256)
      × (3 ≤ length (build_embed fmt e).fields)
      × (length (build_embed fmt e).fields ≤ 6)
  unfolding build_embed
  build_embed_bounds = (
    length-take-le 256 (join (codes " | ") (title_parts fmt e)),
    omega arith,
    omega (
      arith,
      length-append {0} (filer_fields fmt e) (summary_fields fmt e),
      filer_fields-le,
      summary_fields-le,
    ),
  )

abbrev score_order : RawEvent → RawEvent → Bool
score_order a b = leb (score_key b) (score_key a)

score_order-IsTotal : IsTotal score_order
score_order-IsTotal = record { trans = λ a b c h k. ground arith; total = λ a b h. ground arith }

take-IsSorted :
    (n : ℕ) (xs : List RawEvent) → IsSorted score_order xs → IsSorted score_order (take n xs)
take-IsSorted zero xs s = tt
take-IsSorted (suc n) [] s = tt
take-IsSorted (suc n) (x ∷ xs) s = (All-take _ n xs s.0, take-IsSorted n xs s.1)

-- The footer for a number of events.
abbrev pub footer_of : ℕ → Option Text
footer_of n =
    if ltb digest_max_items n
    then some (codes "+" ++ (decimal (n - digest_max_items) ++ codes " weitere"))
    else none

-- A digest of events: which of them it shows, as the lines of its description, and which it leaves out.
pub record Shows (events : List RawEvent) (embed : Embed) : Type 0 where
  pub shown : List RawEvent
  pub hidden : List RawEvent
  pub everything : Perm (shown ++ hidden) events
  pub size : length shown ≡ min digest_max_items (length events)
  pub ordered : IsSorted score_order shown
  pub ranked : All (λ x. All (λ y. score_key y ≤ score_key x) hidden) shown
  pub lines : embed.description ≡ some (join (codes "\n") (map digest_line shown))
  pub footer : embed.footer ≡ footer_of (length events)

-- The description of a digest is the lines of ten of its events, or of all of them if there are
-- fewer, by falling score, a line break between two; shown and left out together are a
-- permutation of the events; no event that it leaves out has a higher score than one that it
-- shows; and the footer is there exactly if some are left out, with their number.
pub digest-Shows : (events : List RawEvent) → Shows events (build_digest_embed events)
unfolding build_digest_embed by_score digest_lines
digest-Shows events =
    let sorted = sort_by-IsSorted score_order score_order-IsTotal events in
    record {
      shown = take digest_max_items (by_score events);
      hidden = drop digest_max_items (by_score events);
      everything =
          subst (λ xs. Perm xs events) (sym (take-append-drop digest_max_items (by_score events)))
            (sort_by-perm score_order events);
      size =
          length-take digest_max_items (by_score events)
          ∙ ap (min digest_max_items) (length-sort_by score_order events);
      ordered = take-IsSorted digest_max_items (by_score events) sorted;
      ranked =
          All-map (λ x hs. All-map (λ y h. leb→le (score_key y) (score_key x) h) _ hs) _
            (take-before-drop score_order digest_max_items (by_score events) sorted);
      lines = refl;
      footer = rw (length-sort_by score_order events) refl;
    }
