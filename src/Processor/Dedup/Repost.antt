-- ===== src/Processor/Dedup/Repost.antt =====
-- What `find_duplicate` of src/argus/processor/dedup.py does for an event whose title, normalised, is
-- in the table already.
use argus_core.Common.{
  ℕ, ◌-◌, ◌≤◌, ◌≡◌, ◌≢◌, true, false, ◌&&◌, List, [], ◌∷◌, Option, none, some, arith, Option-cases,
  inl, inr,
}
use argus_core.Common.Text.{Text, text_eq, text_eq_refl}
use argus_core.Models.{RawEvent, hours}
use argus_core.Store.{find, find-All_filter, Distinct}
use argus_core.Unicode.{Unicode}
use argus_core.Processor.Dedup.{
  live, candidate, scope, ticker_is, ticker_is_null, normalize_title, find_duplicate,
  titles_similar, similarity_threshold, window_hours,
}
use argus_core.Processor.Dedup.Matcher.Equal.{ratio-same}
use argus_core.Processor.Dedup.Original.{
  SameScope, Original, find_duplicate-Original, find_duplicate-none,
}

-- Another row of the table, in the scope and the window of the search, with a title that is the
-- same after normalisation.
pub record Reposted (u : Unicode) (now : ℕ) (e : RawEvent) (rows : List RawEvent) (c : RawEvent)
    : Type 0 where
  pub there : find c.id rows ≡ some c
  pub other : c.id ≢ e.id
  pub live_status : live c.status ≡ true
  pub recent : now - hours window_hours ≤ c.fetched_at
  pub same_scope : SameScope e c e.ticker
  pub same_title : normalize_title u c.title ≡ normalize_title u e.title

has_ticker : (o : Option Text) (t : Text) → o ≡ some t → ticker_is o t ≡ true
unfolding ticker_is
has_ticker none t h = absurd (cc)
has_ticker (some s) t h = let same : s ≡ t = cc in rw same (text_eq_refl t)

no_ticker :
    (o : Option Text) (s t : Text) → o ≡ none → s ≡ t → (ticker_is_null o && text_eq s t) ≡ true
unfolding ticker_is_null
no_ticker none s t h e = rw e (text_eq_refl t)
no_ticker (some x) s t h e = absurd (cc)

SameScope-scope : (e c : RawEvent) (o : Option Text) → SameScope e c o → scope e c o ≡ true
unfolding scope
SameScope-scope e c none h = no_ticker c.ticker c.source e.source h.0 h.1
SameScope-scope e c (some []) h = no_ticker c.ticker c.source e.source h.0 h.1
SameScope-scope e c (some (x ∷ t)) h = has_ticker c.ticker (x ∷ t) h

module _ (u : Unicode) (now : ℕ) (e : RawEvent) (rows : List RawEvent) (c : RawEvent)
    (r : Reposted u now e rows c) where
  repost-candidate : candidate now e c ≡ true
  unfolding candidate
  repost-candidate =
      let scoped = SameScope-scope e c e.ticker r.same_scope in
      ground (arith, r.other, r.live_status, r.recent)

  repost-similar : titles_similar u e.title c.title similarity_threshold ≡ true
  unfolding titles_similar
  repost-similar =
      rw r.same_title (ratio-same (normalize_title u e.title) similarity_threshold (omega arith))

  -- If ids are unique and the table has another row with a live status, fetched in the last 48
  -- hours, of the same scope (the ticker, or for an event without one the source), and with the
  -- same title after normalisation, then `find_duplicate` finds a row, and what it finds is an
  -- original of the event.
  pub find_duplicate-repost :
      Distinct rows
      → (o : RawEvent) × (find_duplicate u now e rows ≡ some o) × Original u now e rows o
  find_duplicate-repost d = elim (Option-cases (find_duplicate u now e rows)) [
    | inl missed ↦
        let unlike =
          find-All_filter (λ x. titles_similar u e.title x.title similarity_threshold ≡ false)
            (candidate now e) rows c.id c (find_duplicate-none u now e rows missed) r.there
            repost-candidate in
        absurd (cc (unlike, repost-similar))
    | inr (o, found) ↦ (o, found, find_duplicate-Original u now e rows o d found)
  ]
