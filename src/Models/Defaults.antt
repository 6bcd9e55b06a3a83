-- ===== src/Models/Defaults.antt =====
-- The listener `_apply_python_defaults` of src/argus/common/models.py, which gives a new object the defaults
-- of its columns, and the columns of `RawEvent` with their defaults.
use argus_core.Common.{
  ℕ, ◌≡◌, refl, ap, ◌∙◌, false, List, [], ◌∷◌, map, Option, none, some, All, for_each, Bool-cases,
  inl, inr, if◌then◌else◌,
}
use argus_core.Common.Text.{Text, codes, text_eq, text_eq_refl, text_eq_swap}
use argus_core.Config.{Dict, get, set, get-set}
use argus_core.Models.{Draft, new_event}
use argus_core.Migrations.Values.{
  Value, null, meta_document, identifier, moment, whole, words, or_null, event_values, status_text,
}

-- `ColumnDefault.arg`: a constant, or a callable with what `arg()` returns (`none` for a TypeError) and what
-- `arg(None)` does.
pub data Default (V : Type 0) : Type 0 where
  constant : V → Default V
  callable : Option V → V → Default V

pub record MappedColumn (V : Type 0) : Type 0 where
  pub name : Text
  pub default : Option (Default V)

module _ {V : Type 0} where
  unfoldable pub value_of : Default V → V
  value_of (constant v) = v
  value_of (callable (some v) w) = v
  value_of (callable none w) = w

  abbrev held : Option (Option V) → Option V
  held none = none
  held (some o) = o

  -- `getattr(target, name, None)`: an attribute that is not there reads as None, like one that is None.
  unfoldable pub getattr : Text → Dict (Option V) → Option V
  getattr name attributes = held (get name attributes)

  -- `if getattr(target, col.name, None) is not None: continue`, and else the assignment.
  unfoldable pub unset : Text → Default V → Option V → Dict (Option V) → Dict (Option V)
  unset name d (some v) attributes = attributes
  unset name d none attributes = set name (some (value_of d)) attributes

  -- `if col.name in kwargs or col.default is None: continue`.
  unfoldable pub omitted : Text → Option (Default V) → Option V → Dict (Option V) → Dict (Option V)
  omitted name none given attributes = attributes
  omitted name (some d) (some v) attributes = attributes
  omitted name (some d) none attributes = unset name d (getattr name attributes) attributes

  -- The body of the loop.
  unfoldable pub fill : Dict V → MappedColumn V → Dict (Option V) → Dict (Option V)
  fill kwargs c attributes = omitted c.name c.default (get c.name kwargs) attributes

  unfoldable pub apply_python_defaults :
      List (MappedColumn V) → Dict V → Dict (Option V) → Dict (Option V)
  apply_python_defaults columns kwargs attributes = for_each (fill kwargs) columns attributes

  -- What the attribute of a column reads after the listener: its value before, or else the default, unless
  -- the constructor is given the column.
  unfoldable pub reading : Option (Default V) → Option V → Option V → Option V
  reading default given (some v) = some v
  reading none given none = none
  reading (some d) (some v) none = none
  reading (some d) none none = some (value_of d)

  getattr-set :
      (x name : Text) (v : V) (a : Dict (Option V))
      → getattr x (set name (some v) a) ≡ (if text_eq name x then some v else getattr x a)
  unfolding getattr
  getattr-set x name v a =
      ap held (get-set x name (some v) a)
      ∙ elim (Bool-cases (text_eq name x)) [ inl e ↦ rw e refl | inr e ↦ rw e refl ]

  omitted-here :
      (name : Text) (o : Option (Default V)) (given current : Option V) (a : Dict (Option V))
      → getattr name a ≡ current
      → getattr name (omitted name o given a) ≡ reading o given current
  unfolding omitted unset reading
  omitted-here name none given none a h = h
  omitted-here name none given (some v) a h = h
  omitted-here name (some d) (some g) none a h = h
  omitted-here name (some d) (some g) (some v) a h = h
  omitted-here name (some d) none none a h =
      rw (h, getattr-set name name (value_of d) a, text_eq_refl name) refl
  omitted-here name (some d) none (some v) a h = rw h h

  omitted-elsewhere :
      (name other : Text) (o : Option (Default V)) (given current : Option V) (a : Dict (Option V))
      → getattr name a ≡ current
      → text_eq name other ≡ false
      → getattr other (omitted name o given a) ≡ getattr other a
  unfolding omitted unset
  omitted-elsewhere name other none given current a h ne = refl
  omitted-elsewhere name other (some d) (some g) current a h ne = refl
  omitted-elsewhere name other (some d) none none a h ne =
      rw (h, getattr-set other name (value_of d) a, ne) refl
  omitted-elsewhere name other (some d) none (some v) a h ne = rw h refl

  apply-elsewhere :
      (columns : List (MappedColumn V)) (kwargs : Dict V) (a : Dict (Option V)) (name : Text)
      → All (λ c. text_eq c.name name ≡ false) columns
      → getattr name (apply_python_defaults columns kwargs a) ≡ getattr name a
  unfolding apply_python_defaults for_each fill
  apply-elsewhere [] kwargs a name apart = refl
  apply-elsewhere (c ∷ cs) kwargs a name apart =
      apply-elsewhere cs kwargs (fill kwargs c a) name apart.1
      ∙ omitted-elsewhere c.name name c.default (get c.name kwargs) (getattr c.name a) a refl
          apart.0

  -- The columns have different names.
  abbrev pub Named : List (MappedColumn V) → Type 0
  Named [] = Unit
  Named (c ∷ cs) = All (λ x. text_eq x.name c.name ≡ false) cs × Named cs

  -- The columns after one read what they did before it.
  before_fill :
      (kwargs : Dict V) (c : MappedColumn V) (a after : Dict (Option V))
      (xs : List (MappedColumn V))
      → All (λ x. text_eq x.name c.name ≡ false) xs
      → All
          (λ x.
            getattr x.name after
            ≡ reading x.default (get x.name kwargs) (getattr x.name (fill kwargs c a)))
          xs
      → All
          (λ x. getattr x.name after ≡ reading x.default (get x.name kwargs) (getattr x.name a))
          xs
  unfolding fill
  before_fill kwargs c a after [] apart h = tt
  before_fill kwargs c a after (x ∷ xs) apart h = (
    h.0
        ∙ ap (reading x.default (get x.name kwargs)) (
            omitted-elsewhere c.name x.name c.default (get c.name kwargs) (getattr c.name a) a refl
              (text_eq_swap c.name x.name ∙ apart.0)),
    before_fill kwargs c a after xs apart.1 h.1,
  )

  -- If no two columns have the same name, then after `_apply_python_defaults` the attribute of
  -- every column reads as it did before if it was set; otherwise as the default of the column if
  -- it has one and the constructor is not given the column; and otherwise it is not set.
  pub apply-reading :
      (columns : List (MappedColumn V)) (kwargs : Dict V) (a : Dict (Option V))
      → Named columns
      → All
          (λ c.
            getattr c.name (apply_python_defaults columns kwargs a)
            ≡ reading c.default (get c.name kwargs) (getattr c.name a))
          columns
  unfolding apply_python_defaults for_each fill
  apply-reading [] kwargs a names = tt
  apply-reading (c ∷ cs) kwargs a names = (
    apply-elsewhere cs kwargs (fill kwargs c a) c.name names.0
        ∙ omitted-here c.name c.default (get c.name kwargs) (getattr c.name a) a refl,
    before_fill kwargs c a (apply_python_defaults cs kwargs (fill kwargs c a)) cs names.0
        (apply-reading cs kwargs (fill kwargs c a) names.1),
  )

-- `RawEvent`, in the order of the migrated table: `_now` and `uuid4` are wrapped, so that they take an
-- argument.
unfoldable pub raw_event_columns : ℕ → ℕ → List (MappedColumn Value)
raw_event_columns id now =
    record { name = codes "id"; default = some (callable none (identifier id)) }
    ∷ record { name = codes "source"; default = none }
    ∷ record { name = codes "external_id"; default = none }
    ∷ record { name = codes "content_hash"; default = none }
    ∷ record { name = codes "ticker"; default = none }
    ∷ record { name = codes "title"; default = none }
    ∷ record { name = codes "body"; default = none }
    ∷ record { name = codes "url"; default = none }
    ∷ record { name = codes "fetched_at"; default = some (callable none (moment now)) }
    ∷ record { name = codes "status"; default = some (constant (words (codes "new"))) }
    ∷ record { name = codes "error_message"; default = none }
    ∷ record { name = codes "retry_count"; default = some (constant (whole 0)) }
    ∷ record { name = codes "relevance_score"; default = none }
    ∷ record { name = codes "sentiment"; default = none }
    ∷ record { name = codes "llm_summary"; default = none }
    ∷ record { name = codes "llm_classified_at"; default = none }
    ∷ record { name = codes "sent_at"; default = none }
    ∷ record { name = codes "poller_meta"; default = none }
    ∷ record { name = codes "duplicate_of"; default = none }
    ∷ []

-- The keyword arguments of both pollers.
unfoldable pub draft_kwargs : Draft → Dict Value
draft_kwargs d =
    (codes "source", words d.source)
    ∷ (codes "external_id", words d.external_id)
    ∷ (codes "content_hash", words d.content_hash)
    ∷ (codes "ticker", or_null words d.ticker)
    ∷ (codes "title", words d.title)
    ∷ (codes "body", words d.body)
    ∷ (codes "url", words d.url)
    ∷ (codes "poller_meta", or_null meta_document d.poller_meta)
    ∷ []

-- What the row of a new object has in a column: the argument, or the attribute, or NULL.
unfoldable pub inserted_value : Dict Value → Dict (Option Value) → MappedColumn Value → Value
inserted_value kwargs attributes c = elim (get c.name kwargs) [
  | some v ↦ v
  | none ↦ elim (getattr c.name attributes) [ some v ↦ v | none ↦ null ]
]

-- The listener gives a new event the values that `new_event` writes.
pub new_event-defaults :
    (id now : ℕ) (d : Draft)
    → let columns = raw_event_columns id now in
      map
        (inserted_value (draft_kwargs d) (apply_python_defaults columns (draft_kwargs d) []))
        columns
      ≡ event_values (new_event id now d)
unfolding raw_event_columns draft_kwargs inserted_value apply_python_defaults for_each fill omitted
    unset value_of getattr get set text_eq event_values new_event status_text
new_event-defaults id now d = refl
