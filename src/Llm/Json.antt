-- ===== src/Llm/Json.antt =====
-- JSON values, as `res.json()` gives them, and the lookups that src/argus/llm makes in them. The search
-- of src/argus/sec_poller/edgar.py reads the same values.
use argus_core.Common.{ℕ, Bool, true, false, Option, none, some, if◌then◌else◌}
use argus_core.Common.Text.{Text, text_eq}

mutual
  pub data Json : Type 0 where
    null : Json
    boolean : Bool → Json
    number : ℕ → Json
    text : Text → Json
    array : Items → Json
    object : Members → Json

  pub data Items : Type 0 where
    end : Items
    item : Json → Items → Items

  pub data Members : Type 0 where
    done : Members
    member : Text → Json → Members → Members

unfoldable pub lookup : Text → Members → Option Json
lookup key done = none
lookup key (member k j ms) = let rest = lookup key ms in if text_eq k key then some j else rest

-- `j[key]` for a text: `none` is a KeyError, or a TypeError for a value that is no object.
unfoldable pub at_key : Text → Option Json → Option Json
unfolding lookup
at_key key (some (object ms)) = lookup key ms
at_key key _ = none

-- `j[0]`: `none` is an IndexError, a KeyError or a TypeError. (A first character of a text is a text,
-- which none of the further lookups takes.)
unfoldable pub at_zero : Option Json → Option Json
at_zero (some (array (item j js))) = some j
at_zero _ = none

-- A text, where the code needs one.
unfoldable pub as_text : Option Json → Option Text
as_text (some (text t)) = some t
as_text _ = none

-- A count, where the code divides it; True and False divide as 1 and 0.
unfoldable pub as_count : Json → Option ℕ
as_count (number n) = some n
as_count (boolean true) = some 1
as_count (boolean false) = some 0
as_count _ = none

-- `usage.get(key, 0)`.
unfoldable pub count_at : Text → Members → Option ℕ
unfolding as_count lookup
count_at key ms = elim (lookup key ms) [ none ↦ some 0 | some j ↦ as_count j ]
