-- ===== src/Processor/Dedup/Original.antt =====
-- The original that `find_duplicate` of src/argus/processor/dedup.py returns, or does not.
use mathlib.Core.Path.{subst}
use argus_core.Common.{
  ap, ℕ, ◌-◌, ◌≤◌, ◌≡◌, ◌≢◌, refl, true, false, ◌&&◌, List, [], ◌∷◌, Option, none, some, arith, All,
  Bool-cases, inl, inr, filter, All-filter, All-filter_test,
}
use argus_core.Common.Text.{Text, text_eq, text_eq_iff}
use argus_core.Models.{RawEvent, hours}
use argus_core.Store.{find, Distinct, Loaded-all}
use argus_core.Unicode.{Unicode}
use argus_core.Processor.Dedup.{
  live, candidate, scope, ticker_is, ticker_is_null, first_similar, find_duplicate, titles_similar,
  similarity_threshold, window_hours,
}

-- The same ticker, or, for an event without one, no ticker and the same source.
abbrev pub SameScope : RawEvent → RawEvent → Option Text → Type 0
SameScope e c (some (x ∷ t)) = c.ticker ≡ some (x ∷ t)
SameScope e c _ = (c.ticker ≡ none) × (c.source ≡ e.source)

-- An original is another row of the table, with a live status, fetched in the window, and its
-- title is similar.
pub record Original (u : Unicode) (now : ℕ) (e : RawEvent) (rows : List RawEvent) (c : RawEvent)
    : Type 0 where
  pub there : find c.id rows ≡ some c
  pub other : c.id ≢ e.id
  pub live_status : live c.status ≡ true
  pub recent : now - hours window_hours ≤ c.fetched_at
  pub same_scope : SameScope e c e.ticker
  pub similar : titles_similar u e.title c.title similarity_threshold ≡ true

ticker_is_eq : (o : Option Text) (t : Text) → ticker_is o t ≡ true → o ≡ some t
unfolding ticker_is
ticker_is_eq none t h = absurd (cc)
ticker_is_eq (some s) t h = ap some ((text_eq_iff s t).0 h)

without_ticker :
    (o : Option Text) (s t : Text) → (ticker_is_null o && text_eq s t) ≡ true → (o ≡ none) × (s ≡ t)
unfolding ticker_is_null
without_ticker none s t h = (refl, (text_eq_iff s t).0 h)
without_ticker (some x) s t h = absurd (cc)

scope-SameScope : (e c : RawEvent) (o : Option Text) → scope e c o ≡ true → SameScope e c o
unfolding scope
scope-SameScope e c none h = without_ticker c.ticker c.source e.source h
scope-SameScope e c (some []) h = without_ticker c.ticker c.source e.source h
scope-SameScope e c (some (x ∷ t)) h = ticker_is_eq c.ticker (x ∷ t) h

module _ (now : ℕ) (e c : RawEvent) (t : candidate now e c ≡ true) where
  candidate-other : c.id ≢ e.id
  unfolding candidate
  candidate-other p = ground arith

  candidate-live : live c.status ≡ true
  unfolding candidate
  candidate-live = ground arith

  candidate-recent : now - hours window_hours ≤ c.fetched_at
  unfolding candidate
  candidate-recent = ground arith

  candidate-scope : scope e c e.ticker ≡ true
  unfolding candidate
  candidate-scope = ground arith

module _ (u : Unicode) where
  first_similar-some :
      (P : RawEvent → Type 0) (title : Text) (cs : List RawEvent) (c : RawEvent)
      → first_similar u title cs ≡ some c
      → All P cs
      → P c × (titles_similar u title c.title similarity_threshold ≡ true)
  unfolding first_similar
  first_similar-some P title [] c h a = absurd (cc)
  first_similar-some P title (x ∷ cs) c h a =
      elim (Bool-cases (titles_similar u title x.title similarity_threshold)) [
        | inl yes_similar ↦
            let e : x ≡ c = ground arith in
            (
              subst P e a.0,
              subst (λ y. titles_similar u title y.title similarity_threshold ≡ true) e yes_similar,
            )
        | inr not_similar ↦ first_similar-some P title cs c (ground arith) a.1
      ]

  first_similar-none :
      (title : Text) (cs : List RawEvent)
      → first_similar u title cs ≡ none
      → All (λ c. titles_similar u title c.title similarity_threshold ≡ false) cs
  unfolding first_similar
  first_similar-none title [] h = tt
  first_similar-none title (x ∷ cs) h =
      elim (Bool-cases (titles_similar u title x.title similarity_threshold)) [
        | inl yes_similar ↦ absurd (ground arith)
        | inr not_similar ↦ (not_similar, first_similar-none title cs (ground arith))
      ]

  -- If ids are unique and `find_duplicate` returns an event, then that is another row of the
  -- table, with status new, processed or sent, fetched in the last 48 hours, of the same ticker
  -- (or, for an event without one, with none and of the same source), and its title is similar.
  pub find_duplicate-Original :
      (now : ℕ) (e : RawEvent) (rows : List RawEvent) (c : RawEvent)
      → Distinct rows
      → find_duplicate u now e rows ≡ some c
      → Original u now e rows c
  unfolding find_duplicate
  find_duplicate-Original now e rows c d h =
      let (there, similar) =
        first_similar-some (λ x. find x.id rows ≡ some x) e.title (filter (candidate now e) rows) c
          h (All-filter _ (candidate now e) rows (Loaded-all rows d).found) in
      let (passed, _) =
        first_similar-some (λ x. candidate now e x ≡ true) e.title (filter (candidate now e) rows) c
          h (All-filter_test (candidate now e) rows) in
      record {
        there = there;
        other = candidate-other now e c passed;
        live_status = candidate-live now e c passed;
        recent = candidate-recent now e c passed;
        same_scope = scope-SameScope e c e.ticker (candidate-scope now e c passed);
        similar = similar;
      }

  -- If `find_duplicate` returns None, then no row that its query selects has a title that is
  -- similar to the event's.
  pub find_duplicate-none :
      (now : ℕ) (e : RawEvent) (rows : List RawEvent)
      → find_duplicate u now e rows ≡ none
      → All
          (λ c. titles_similar u e.title c.title similarity_threshold ≡ false)
          (filter (candidate now e) rows)
  unfolding find_duplicate
  find_duplicate-none now e rows h = first_similar-none e.title (filter (candidate now e) rows) h
