-- ===== src/Common/Text.antt =====
-- Text as the list of its code points, the comparison of texts, and the string operations that
-- the services use.
use Prim.Native.Char.{code}
use Prim.Native.String.{String}
use Prim.Native.Nat.{ℕ, zero, suc, ◌+◌, ◌/◌, ◌%◌}
use mathlib.Core.Path.{◌≡◌, refl}
use mathlib.Core.Logic.{◌↔◌}
use mathlib.Core.Bool.{Bool, true, false, ◌&&◌}
use mathlib.Core.List.{List, [], ◌∷◌, ◌++◌}
use mathlib.Core.Option.{Option, none, some}
use native.Mathlib.Omega.{arith}
use argus_core.Common.Tests.{◌==◌, ltb, if◌then◌else◌}

abbrev pub Text : Type 0
Text = List ℕ

-- A literal of the source.
abbrev pub codes : String → Text
codes String.[] = []
codes (String.◌∷◌ c s) = code c ∷ codes s

-- `a == b` on texts.
unfoldable pub text_eq : Text → Text → Bool
text_eq [] [] = true
text_eq [] (b ∷ bs) = false
text_eq (a ∷ rest) [] = false
text_eq (a ∷ rest) (b ∷ bs) = a == b && text_eq rest bs

text_eq→eq : (s t : Text) → text_eq s t ≡ true → s ≡ t
unfolding text_eq
text_eq→eq [] [] h = refl
text_eq→eq [] (b ∷ bs) h = cc
text_eq→eq (a ∷ rest) [] h = cc
text_eq→eq (a ∷ rest) (b ∷ bs) h = ground (arith, text_eq→eq rest bs)

pub text_eq_refl : (s : Text) → text_eq s s ≡ true
unfolding text_eq
text_eq_refl [] = refl
text_eq_refl (a ∷ rest) = ground (arith, text_eq_refl rest)

pub text_eq_iff : (s t : Text) → (text_eq s t ≡ true) ↔ (s ≡ t)
text_eq_iff s t = (text_eq→eq s t, λ e. rw e (text_eq_refl t))

pub text_eq_swap : (s t : Text) → text_eq s t ≡ text_eq t s
text_eq_swap s t = ground (arith, text_eq_iff s t, text_eq_iff t s)

-- `s or None` as a test: Python's truth value of an optional text.
abbrev pub truthy : Option Text → Bool
truthy none = false
truthy (some []) = false
truthy (some (c ∷ s)) = true

-- `a or b` on optional texts.
abbrev pub text_or : Option Text → Text → Text
text_or none b = b
text_or (some []) b = b
text_or (some (c ∷ s)) b = c ∷ s

-- `sep.join(parts)`.
pub join : Text → List Text → Text
join sep [] = []
join sep (s ∷ []) = s
join sep (s ∷ t ∷ rest) = s ++ (sep ++ join sep (t ∷ rest))

starts_with : Text → Text → Bool
starts_with [] t = true
starts_with (a ∷ s) [] = false
starts_with (a ∷ s) (b ∷ t) = a == b && starts_with s t

-- `word in text`.
pub contains : Text → Text → Bool
unfolding starts_with
contains word [] = starts_with word []
contains word (c ∷ text) = if starts_with word (c ∷ text) then true else contains word text

-- `str(n)` for a natural number; the fuel `n + 1` exceeds the number of digits.
decimal_from : ℕ → ℕ → Text → Text
decimal_from zero n acc = acc
decimal_from (suc fuel) n acc =
    let rest = decimal_from fuel (n / 10) ((48 + n % 10) ∷ acc) in
    if ltb n 10 then (48 + n) ∷ acc else rest

unfoldable pub decimal : ℕ → Text
unfolding decimal_from
decimal n = decimal_from (suc n) n []

decimal_runs : decimal 1205 ≡ codes "1205"
unfolding decimal
decimal_runs = refl

contains_runs : contains (codes "fda") (codes "the fda acts") ≡ true
unfolding contains
contains_runs = refl

join_runs : join (codes " | ") (codes "a" ∷ codes "b" ∷ []) ≡ codes "a | b"
unfolding join
join_runs = refl
