-- ===== src/Migrations/Values.antt =====
-- Which values the columns of the migrated schema take, and the rows of `raw_events` as
-- src/argus/common/models.py writes them. From the manual of PostgreSQL: it refuses NULL in a column that is NOT
-- NULL, a text that is longer than its VARCHAR, a NUL character or a surrogate in a text or
-- a JSON document, a number beyond the
-- range of its integer type, and a value of another type.
use argus_core.Common.{
  ℕ, ◌≤◌, ◌<◌, ◌≡◌, true, false, any, All, ◌==◌, leb, ◌||◌, ◌&&◌, List, [], ◌∷◌, ◌++◌, Option, none,
  some, length, if◌then◌else◌,
}
use argus_core.Common.Text.{Text, codes, text_eq}
use argus_core.Models.{Status, PollerMeta, RawEvent}
use argus_core.Migrations.Schema.{ColumnType, Column, Operation}

pub data Value : Type 0 where
  null : Value
  -- A JSON document, with the texts in it.
  document : List Text → Value
  identifier moment whole : ℕ → Value
  words : Text → Value

-- A text without NUL characters and without surrogates.
abbrev pub Clean : Text → Type 0
Clean t = any (λ c. (c == 0) || (leb 55296 c && leb c 57343)) t ≡ false

abbrev pub HasType : ColumnType → Value → Type 0
HasType ColumnType.uuid (identifier i) = Unit
HasType ColumnType.text (words t) = Clean t
HasType (ColumnType.string n) (words t) = (length t ≤ n) × Clean t
HasType ColumnType.integer (whole n) = n < 2147483648
HasType ColumnType.timestamp (moment t) = Unit
HasType ColumnType.jsonb (document ts) = All Clean ts
HasType _ _ = ⊥

abbrev pub IsTyped : Column → Value → Type 0
IsTyped c null = c.nullable ≡ true
IsTyped c v = HasType c.kind v

-- A value for each column, in their order.
abbrev pub Conforms : List Column → List Value → Type 0
Conforms [] [] = Unit
Conforms (c ∷ cs) (v ∷ vs) = IsTyped c v × Conforms cs vs
Conforms _ _ = ⊥

-- The columns of a table after a script: those of its creation, and the ones that were added.
extended : Text → Operation → List Column → List Column
extended name (Operation.create_table t) cs = if text_eq t.name name then t.columns else cs
extended name (Operation.add_column table c) cs = if text_eq table name then cs ++ c ∷ [] else cs
extended name _ cs = cs

unfoldable pub columns_after : Text → List Operation → List Column → List Column
unfolding extended
columns_after name [] cs = cs
columns_after name (o ∷ os) cs = columns_after name os (extended name o cs)

-- The values of the column `status`.
unfoldable pub status_text : Status → Text
status_text Status.new = codes "new"
status_text Status.processed = codes "processed"
status_text Status.sent = codes "sent"
status_text Status.duplicate = codes "duplicate"
status_text Status.failed = codes "failed"
status_text Status.skipped = codes "skipped"

abbrev pub or_null : {A : Type 0} → (A → Value) → Option A → Value
or_null f none = null
or_null f (some a) = f a

abbrev pub texts_of : Option Text → List Text
texts_of none = []
texts_of (some t) = t ∷ []

abbrev pub meta_texts : PollerMeta → List Text
meta_texts m = texts_of m.filer_name ++ (texts_of m.filer_role ++ texts_of m.transaction_type)

-- The document of `poller_meta`, of which one value is a number.
abbrev pub meta_document : PollerMeta → Value
meta_document m = document (meta_texts m)

-- The row of an event, in the order of the columns of the migrated table.
unfoldable pub event_values : RawEvent → List Value
unfolding status_text
event_values e =
    identifier e.id
    ∷ words e.source
    ∷ words e.external_id
    ∷ words e.content_hash
    ∷ or_null words e.ticker
    ∷ words e.title
    ∷ words e.body
    ∷ words e.url
    ∷ moment e.fetched_at
    ∷ words (status_text e.status)
    ∷ or_null words e.error_message
    ∷ whole e.retry_count
    ∷ or_null whole e.relevance_score
    ∷ or_null words e.sentiment
    ∷ or_null words e.llm_summary
    ∷ or_null moment e.llm_classified_at
    ∷ or_null moment e.sent_at
    ∷ or_null meta_document e.poller_meta
    ∷ or_null identifier e.duplicate_of
    ∷ []
