-- ===== src/Tests/Constructing.antt =====
-- The theorem on the defaults of columns, applied to a new row of polling_state.
use argus_core.Common.{◌≡◌, refl, List, [], ◌∷◌, Option, none, some, All, for_each}
use argus_core.Common.Text.{codes, text_eq}
use argus_core.Config.{Dict, get, set}
use argus_core.Migrations.Values.{Value, words, moment}
use argus_core.Models.Defaults.{
  MappedColumn, callable, reading, value_of, getattr, unset, omitted, fill, apply_python_defaults,
  apply-reading,
}

-- `PollingState(source=..., cursor=...)` at a time.
abbrev polling_state_columns : List (MappedColumn Value)
polling_state_columns =
    record { name = codes "source"; default = none }
    ∷ record { name = codes "cursor"; default = none }
    ∷ record { name = codes "updated_at"; default = some (callable none (moment 9)) }
    ∷ []

abbrev cursor_kwargs : Dict Value
cursor_kwargs = (codes "source", words (codes "sec")) ∷ (codes "cursor", words (codes "a1")) ∷ []

-- The time of the update was set to None.
abbrev nothing_yet : Dict (Option Value)
nothing_yet = (codes "updated_at", none) ∷ []

apply-reading_example :
    All
      (λ c.
        getattr c.name (apply_python_defaults polling_state_columns cursor_kwargs nothing_yet)
        ≡ reading c.default (get c.name cursor_kwargs) (getattr c.name nothing_yet))
      polling_state_columns
unfolding text_eq
apply-reading_example =
    apply-reading polling_state_columns cursor_kwargs nothing_yet
      ((refl, (refl, tt)), ((refl, tt), (tt, tt)))

-- What it reads then.
stamped :
    getattr
      (codes "updated_at")
      (apply_python_defaults polling_state_columns cursor_kwargs nothing_yet)
    ≡ some (moment 9)
unfolding apply_python_defaults getattr get set for_each fill omitted unset value_of text_eq
stamped = refl
