-- ===== src/Store/Engine.antt =====
-- src/argus/common/db.py: what is passed on to the functions of SQLAlchemy.
use argus_core.Common.{
  ℕ, ◌≡◌, refl, Bool, true, false, [], ◌∷◌, ◌++◌, Option, none, some, arith, any, if◌then◌else◌,
}
use argus_core.Common.Text.{Text, codes, text_eq, text_eq_iff}
use argus_core.Config.{Dict}

-- The value of a keyword argument.
pub data Argument : Type 0 where
  number : ℕ → Argument
  flag : Bool → Argument
  object : Argument

abbrev pub pool_defaults : Dict Argument
pool_defaults =
    (codes "pool_size", number 5)
    ∷ (codes "max_overflow", number 10)
    ∷ (codes "pool_pre_ping", flag true)
    ∷ (codes "pool_recycle", number 3600)
    ∷ []

-- A call of `create_async_engine`.
pub record EngineCall : Type 0 where
  pub url : Text
  pub arguments : Dict Argument

given : Dict Argument → Text → Bool
given kwargs name = any (λ (k, _). text_eq k name) kwargs

-- `create_engine`. A keyword that is given twice in a call is a TypeError, `none`.
unfoldable pub create_engine : Text → Dict Argument → Option EngineCall
unfolding given
create_engine database_url kwargs =
    if any (λ (name, _). given kwargs name) pool_defaults
    then none
    else some (record { url = database_url; arguments = pool_defaults ++ kwargs })

-- `create_session_factory`.
pub record SessionFactory : Type 0 where
  pub engine : EngineCall
  pub expire_on_commit : Bool

pub create_session_factory : EngineCall → SessionFactory
create_session_factory engine = record { engine = engine; expire_on_commit = false }

-- The services pass no keyword, so each has the pool of the defaults.
services_pool :
    (database_url : Text)
    → create_engine database_url []
      ≡ some (record { url = database_url; arguments = pool_defaults })
unfolding create_engine given
services_pool database_url = refl

-- A keyword of the caller that has a default here does not override it: the call raises.
override_raises :
    (database_url name : Text) (kwargs : Dict Argument)
    → given pool_defaults name ≡ true
    → given kwargs name ≡ true
    → create_engine database_url kwargs ≡ none
unfolding create_engine given
override_raises database_url name kwargs known h = ground (
  arith,
  text_eq_iff (codes "pool_size") name,
  text_eq_iff (codes "max_overflow") name,
  text_eq_iff (codes "pool_pre_ping") name,
  text_eq_iff (codes "pool_recycle") name,
)
