-- ===== src/Lifecycle/Bills.antt =====
-- The table `llm_calls` as the bills of the events: how many rows it has about an event, against its
-- score; and the events that `notifications` is about.
use mathlib.Core.Path.{subst}
use argus_core.Common.{
  Bool, true, any, ℕ, suc, ◌+◌, ◌≡◌, ◌≢◌, refl, ◌∙◌, sym, ap, List, [], ◌∷◌, ◌++◌, Option, none,
  some, arith, ◌==◌, ==_iff, Bool-cases, inl, inr, length, length-append, if◌then◌else◌, All,
  All-map, All-append,
}
use argus_core.Models.{RawEvent, LlmCall, Notification}
use argus_core.Store.{find, save, find-save, find-save_ne}

unfoldable pub call_count : ℕ → List LlmCall → ℕ
call_count i [] = 0
call_count i (c ∷ cs) = if c.event_id == i then suc (call_count i cs) else call_count i cs

abbrev pub given : Option ℕ → ℕ
given none = 0
given (some n) = 1

abbrev pub score_flag : Option RawEvent → ℕ
score_flag none = 0
score_flag (some r) = given r.relevance_score

-- One LLM call about each event with a score, and none about any other id.
pub record Bills (rows : List RawEvent) (calls : List LlmCall) : Type 0 where
  pub at : (i : ℕ) → call_count i calls ≡ score_flag (find i rows)

-- What a classifier may record of a row that it takes from `e` to `e'`, with the number of calls: nothing,
-- and the score stays; or one call about the event, which then has a score.
pub data Recorded (e e' : RawEvent) (calls calls' : List LlmCall) : ℕ → Type 0 where
  nothing : calls' ≡ calls → e'.relevance_score ≡ e.relevance_score → Recorded e e' calls calls' 0
  one :
      (c : LlmCall) (n : ℕ)
      → c.event_id ≡ e.id
      → calls' ≡ calls ++ c ∷ []
      → e'.relevance_score ≡ some n
      → Recorded e e' calls calls' 1

pub length-Recorded :
    {e e' : RawEvent} {calls calls' : List LlmCall} {n : ℕ}
    → Recorded e e' calls calls' n
    → length calls' ≡ length calls + n
length-Recorded {calls} (Recorded.nothing same kept) = rw same (omega arith)
length-Recorded {calls} (Recorded.one c n own grown scored) =
    rw grown (omega (arith, length-append calls (c ∷ [])))

call_count-append :
    (i : ℕ) (cs : List LlmCall) (c : LlmCall)
    → call_count i (cs ++ c ∷ []) ≡ call_count i cs + (if c.event_id == i then 1 else 0)
unfolding call_count
call_count-append i [] c = ground arith
call_count-append i (x ∷ cs) c = ground (arith, call_count-append i cs c)

module _ (rows : List RawEvent) (calls : List LlmCall) (e e' : RawEvent)
    (there : find e.id rows ≡ some e) (same : e'.id ≡ e.id) where
  now_here : find e.id (save e' rows) ≡ some e'
  now_here = find-save e.id e' rows e (rw same there) ∙ ground (arith, same)

  elsewhere : (i : ℕ) → e.id ≢ i → find i (save e' rows) ≡ find i rows
  elsewhere i ne = find-save_ne i e' rows (λ p. ne (sym same ∙ p))

  -- A row whose score stays.
  pub Bills-save :
      e'.relevance_score ≡ e.relevance_score → Bills rows calls → Bills (save e' rows) calls
  Bills-save score b = record {
    at = λ i. elim (Bool-cases (e.id == i)) [
      | inl here ↦
          subst (λ j. call_count j calls ≡ score_flag (find j (save e' rows)))
            ((==_iff e.id i).0 here) (b.at e.id ∙ rw (there, now_here, score) refl)
      | inr apart ↦ b.at i ∙ ap score_flag (sym (elsewhere i (ground arith)))
    ];
  }

  -- A row without a score that gets one with a call.
  Bills-call :
      (c : LlmCall) (n : ℕ)
      → e.relevance_score ≡ none
      → c.event_id ≡ e.id
      → e'.relevance_score ≡ some n
      → Bills rows calls
      → Bills (save e' rows) (calls ++ c ∷ [])
  Bills-call c n unscored own score b = record {
    at = λ i. elim (Bool-cases (e.id == i)) [
      | inl here ↦
          let zero_here : call_count e.id calls ≡ 0 = b.at e.id ∙ rw (there, unscored) refl in
          subst (λ j. call_count j (calls ++ c ∷ []) ≡ score_flag (find j (save e' rows)))
            ((==_iff e.id i).0 here)
            (rw (now_here, score) (ground (arith, call_count-append e.id calls c, zero_here)))
      | inr apart ↦ ground (arith, call_count-append i calls c, b.at i, elsewhere i)
    ];
  }

  -- A row without a score, and what was recorded of it.
  pub Bills-record :
      {calls' : List LlmCall} (e'' : RawEvent) (n : ℕ)
      → e.relevance_score ≡ none
      → e'.relevance_score ≡ e''.relevance_score
      → Recorded e e'' calls calls' n
      → Bills rows calls
      → Bills (save e' rows) calls'
  Bills-record e'' n unscored score (Recorded.nothing same_calls kept) b =
      rw same_calls (Bills-save (score ∙ kept) b)
  Bills-record e'' n unscored score (Recorded.one c m own grown scored) b =
      rw grown (Bills-call c m unscored own (score ∙ scored) b)

-- There is a row with this id.
unfoldable pub has_id : ℕ → List RawEvent → Bool
has_id i rows = any (λ r. r.id == i) rows

-- Every notification is about a row of the table.
abbrev pub Noted : List RawEvent → List Notification → Type 0
Noted rows = All (λ n. has_id n.event_id rows ≡ true)

has_id-save : (i : ℕ) (e : RawEvent) (rows : List RawEvent) → has_id i (save e rows) ≡ has_id i rows
unfolding has_id save
has_id-save i e [] = refl
has_id-save i e (r ∷ rows) = ground (arith, has_id-save i e rows)

has_id-append :
    (i : ℕ) (rows added : List RawEvent) → has_id i rows ≡ true → has_id i (rows ++ added) ≡ true
unfolding has_id
has_id-append i [] added h = absurd (cc)
has_id-append i (r ∷ rows) added h = ground (arith, has_id-append i rows added)

pub has_id-found :
    (i : ℕ) (rows : List RawEvent) (r : RawEvent) → find i rows ≡ some r → has_id i rows ≡ true
unfolding has_id find
has_id-found i [] r h = absurd (cc)
has_id-found i (x ∷ rows) r h = ground (arith, has_id-found i rows r)

pub Noted-save :
    (e : RawEvent) (rows : List RawEvent) (notes : List Notification)
    → Noted rows notes
    → Noted (save e rows) notes
Noted-save e rows = All-map (λ n h. has_id-save n.event_id e rows ∙ h)

-- A row that is written back, with a notification about it.
pub Noted-notify :
    (e e' : RawEvent) (rows : List RawEvent) (notes : List Notification) (n : Notification)
    → find e.id rows ≡ some e
    → n.event_id ≡ e.id
    → Noted rows notes
    → Noted (save e' rows) (notes ++ n ∷ [])
Noted-notify e e' rows notes n there own h =
    All-append _ notes (n ∷ []) (Noted-save e' rows notes h)
      (has_id-save n.event_id e' rows ∙ rw own (has_id-found e.id rows e there), tt)

pub Noted-append :
    (rows added : List RawEvent) (notes : List Notification)
    → Noted rows notes
    → Noted (rows ++ added) notes
Noted-append rows added = All-map (λ n. has_id-append n.event_id rows added)

-- New rows without a score.
unscored_added :
    (i : ℕ) (added : List RawEvent)
    → All (λ e. e.relevance_score ≡ none) added
    → score_flag (find i added) ≡ 0
unfolding find
unscored_added i [] h = refl
unscored_added i (e ∷ es) h = ground (arith, h.0, unscored_added i es h.1)

score_flag-append :
    (i : ℕ) (rows added : List RawEvent)
    → All (λ e. e.relevance_score ≡ none) added
    → score_flag (find i (rows ++ added)) ≡ score_flag (find i rows)
unfolding find
score_flag-append i [] added h = unscored_added i added h
score_flag-append i (r ∷ rows) added h = ground (arith, score_flag-append i rows added h)

pub Bills-append :
    (rows added : List RawEvent) (calls : List LlmCall)
    → All (λ e. e.relevance_score ≡ none) added
    → Bills rows calls
    → Bills (rows ++ added) calls
Bills-append rows added calls h b = record {
  at = λ i. b.at i ∙ sym (score_flag-append i rows added h);
}
