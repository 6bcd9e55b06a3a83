-- ===== src/Migrations/Typed.antt =====
-- Rows of src/argus that the migrated table `raw_events` of src/alembic/versions takes.
use argus_core.Common.{
  All, true, ℕ, ◌≤◌, ◌<◌, ◌≡◌, refl, List, [], Option, none, some, arith, length,
}
use argus_core.Common.Text.{Text, codes, text_eq}
use argus_core.Models.{Status, PollerMeta, RawEvent}
use argus_core.Lifecycle.{RowValid}
use argus_core.Migrations.Schema.{ColumnType, Column, optional}
use argus_core.Migrations.Paths.{upgrades, history}
use argus_core.Migrations.Initial
use argus_core.Migrations.DuplicateOf
use argus_core.Migrations.Clusters
use argus_core.Migrations.Values.{
  Value, words, whole, moment, identifier, Clean, texts_of, meta_texts, meta_document, or_null,
  IsTyped, Conforms, columns_after, event_values, status_text,
}

-- The columns of `raw_events` at the head of the migrations.
unfoldable pub columns : List Column
unfolding columns_after upgrades text_eq Initial.upgrade DuplicateOf.upgrade Clusters.upgrade
columns = columns_after (codes "raw_events") (upgrades history) []

-- The migrated table takes the row, and it was tried at most three times.
pub record Typed (e : RawEvent) : Type 0 where
  pub row : Conforms columns (event_values e)
  pub tries : e.retry_count ≤ 3

abbrev pub Short : ℕ → Option Text → Type 0
Short n none = Unit
Short n (some t) = length t ≤ n

abbrev pub Small : Option ℕ → Type 0
Small none = Unit
Small (some n) = n < 2147483648

-- A row in whose texts there are no NUL characters and no surrogates.
pub record Plain (e : RawEvent) : Type 0 where
  pub source : Clean e.source
  pub external_id : Clean e.external_id
  pub content_hash : Clean e.content_hash
  pub ticker : All Clean (texts_of e.ticker)
  pub title : Clean e.title
  pub body : Clean e.body
  pub url : Clean e.url
  pub error_message : All Clean (texts_of e.error_message)
  pub sentiment : All Clean (texts_of e.sentiment)
  pub llm_summary : All Clean (texts_of e.llm_summary)
  pub poller_meta : (m : PollerMeta) → e.poller_meta ≡ some m → All Clean (meta_texts m)

-- What the table asks of a row that is not so for every row.
pub record Fits (e : RawEvent) : Type 0 where
  pub source : length e.source ≤ 32
  pub content_hash : length e.content_hash ≤ 64
  pub ticker : Short 16 e.ticker
  pub sentiment : Short 16 e.sentiment
  pub score : Small e.relevance_score
  pub tries : e.retry_count ≤ 3

IsTyped-Short :
    (name : Text) (n : ℕ) (o : Option Text)
    → Short n o
    → All Clean (texts_of o)
    → IsTyped (optional name (ColumnType.string n)) (or_null words o)
IsTyped-Short name n none h k = refl
IsTyped-Short name n (some t) h k = (h, k.0)

IsTyped-text :
    (name : Text) (o : Option Text)
    → All Clean (texts_of o)
    → IsTyped (optional name ColumnType.text) (or_null words o)
IsTyped-text name none k = refl
IsTyped-text name (some t) k = k.0

IsTyped-meta :
    (name : Text) (o : Option PollerMeta)
    → ((m : PollerMeta) → o ≡ some m → All Clean (meta_texts m))
    → IsTyped (optional name ColumnType.jsonb) (or_null meta_document o)
IsTyped-meta name none k = refl
IsTyped-meta name (some m) k = k m refl

IsTyped-Small :
    (name : Text) (o : Option ℕ)
    → Small o
    → IsTyped (optional name ColumnType.integer) (or_null whole o)
IsTyped-Small name none h = refl
IsTyped-Small name (some n) h = h

-- An optional column that takes every value of a kind.
IsTyped-any :
    {A : Type 0} (c : Column) (f : A → Value) (o : Option A)
    → c.nullable ≡ true
    → ((a : A) → IsTyped c (f a))
    → IsTyped c (or_null f o)
IsTyped-any c f none h all = h
IsTyped-any c f (some a) h all = all a

status_text-IsTyped : (s : Status) → (length (status_text s) ≤ 16) × Clean (status_text s)
unfolding status_text
status_text-IsTyped Status.new = (omega arith, refl)
status_text-IsTyped Status.processed = (omega arith, refl)
status_text-IsTyped Status.sent = (omega arith, refl)
status_text-IsTyped Status.duplicate = (omega arith, refl)
status_text-IsTyped Status.failed = (omega arith, refl)
status_text-IsTyped Status.skipped = (omega arith, refl)

pub Fits-Typed : (e : RawEvent) → Fits e → Plain e → Typed e
unfolding columns event_values
Fits-Typed e f p =
    let error = IsTyped-text (codes "error_message") e.error_message p.error_message in
    let score = IsTyped-Small (codes "relevance_score") e.relevance_score f.score in
    let sentiment = IsTyped-Short (codes "sentiment") 16 e.sentiment f.sentiment p.sentiment in
    let summary = IsTyped-text (codes "llm_summary") e.llm_summary p.llm_summary in
    let judged =
      IsTyped-any (optional (codes "llm_classified_at") ColumnType.timestamp) moment
        e.llm_classified_at refl (λ _. tt) in
    let sent =
      IsTyped-any (optional (codes "sent_at") ColumnType.timestamp) moment e.sent_at refl
        (λ _. tt) in
    let meta = IsTyped-meta (codes "poller_meta") e.poller_meta p.poller_meta in
    let original = IsTyped-any DuplicateOf.duplicate_of identifier e.duplicate_of refl (λ _. tt) in
    let ticker = IsTyped-Short (codes "ticker") 16 e.ticker f.ticker p.ticker in
    record {
      row = (
        tt,
        (
          (f.source, p.source),
          (
            p.external_id,
            (
              (f.content_hash, p.content_hash),
              (
                ticker,
                (
                  p.title,
                  (
                    p.body,
                    (
                      p.url,
                      (
                        tt,
                        (
                          status_text-IsTyped e.status,
                          (
                            error,
                            (
                              omega (arith, f.tries),
                              (
                                score,
                                (sentiment, (summary, (judged, (sent, (meta, (original, tt)))))),
                              ),
                            ),
                          ),
                        ),
                      ),
                    ),
                  ),
                ),
              ),
            ),
          ),
        ),
      );
      tries = f.tries;
    }

-- A row that carries what its status asks for, and fits the table.
abbrev pub Kept : RawEvent → Type 0
Kept e = RowValid e × Fits e
