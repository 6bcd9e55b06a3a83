-- ===== src/Processor/Dedup/Matcher.antt =====
-- `difflib.SequenceMatcher(None, a, b).ratio()`, which src/argus/processor/dedup.py calls: the
-- total size of the matching blocks, found by the longest match and recursion on both sides.
pub mod Diagonal
pub mod Equal
use mathlib.Core.List.{reverse}
use argus_core.Common.{
  ℕ, zero, suc, ◌+◌, ◌-◌, ◌*◌, ◌/◌, ◌≡◌, refl, Bool, true, false, not, ◌&&◌, [], ◌∷◌, ltb, leb,
  ◌==◌, length, take, drop, filter, if◌then◌else◌,
}
use argus_core.Common.Text.{Text, codes}

pub record Block : Type 0 where
  pub a_start : ℕ
  pub b_start : ℕ
  pub size : ℕ

-- The equal characters that both texts begin with, as long as `ok` allows them.
pub common_prefix : (ℕ → Bool) → Text → Text → ℕ
common_prefix ok [] b = 0
common_prefix ok (x ∷ a) [] = 0
common_prefix ok (x ∷ a) (y ∷ b) =
    let rest = common_prefix ok a b in if x == y && ok y then suc rest else 0

-- `autojunk`: in a text of 200 characters or more, those that make up over a hundredth of it.
popular : Text → ℕ → Bool
popular b c = leb 200 (length b) && ltb (length b / 100 + 1) (length (filter (λ x. x == c) b))

module _ (junk : ℕ → Bool) where
  scan_b : ℕ → Text → Text → ℕ → Block → Block
  scan_b i a [] j best = best
  scan_b i a (y ∷ b) j best =
      let k = common_prefix (λ c. not (junk c)) a (y ∷ b) in
      scan_b i a b (j + 1)
        (if ltb best.size k then record { a_start = i; b_start = j; size = k } else best)

  pub scan_a : Text → ℕ → Text → Block → Block
  scan_a [] i b best = best
  scan_a (x ∷ a) i b best = scan_a a (i + 1) b (scan_b i (x ∷ a) b 0 best)

  -- The block grows over popular characters, to the left and to the right.
  grow : Text → Text → Block → Block
  grow a b m =
      let l = common_prefix (λ _. true) (reverse (take m.a_start a)) (reverse (take m.b_start b)) in
      let r = common_prefix (λ _. true) (drop m.a_start a) (drop m.b_start b) in
      record { a_start = m.a_start - l; b_start = m.b_start - l; size = l + r }

  -- `find_longest_match`.
  longest_match : Text → Text → Block
  unfolding scan_a scan_b grow common_prefix
  longest_match a b = grow a b (scan_a a 0 b (record { a_start = 0; b_start = 0; size = 0 }))

  -- The sizes of `get_matching_blocks`; each block leaves two shorter pairs.
  matched : ℕ → Text → Text → ℕ
  unfolding longest_match
  matched zero a b = 0
  matched (suc fuel) a b =
      let m = longest_match a b in
      let before = matched fuel (take m.a_start a) (take m.b_start b) in
      let after = matched fuel (drop (m.a_start + m.size) a) (drop (m.b_start + m.size) b) in
      if m.size == 0 then 0 else before + (m.size + after)

-- A ratio `numerator / denominator`.
pub record Ratio : Type 0 where
  pub numerator : ℕ
  pub denominator : ℕ

-- `SequenceMatcher(None, a, b).ratio() >= threshold`, cross-multiplied; two empty texts have
-- ratio 1. The fuel bounds the depth, as each block takes a character of `a`.
unfoldable pub ratio_at_least : Text → Text → Ratio → Bool
unfolding matched popular
ratio_at_least a b threshold =
    let total = length a + length b in
    if total == 0
    then leb threshold.numerator threshold.denominator
    else leb (threshold.numerator * total)
        (threshold.denominator * (2 * matched (popular b) (suc (length a)) a b))

abcd_bcde : matched (λ _. false) 5 (codes "abcd") (codes "bcde") ≡ 3
unfolding matched
abcd_bcde = refl

close_titles :
    ratio_at_least
      (codes "ceo buys shares")
      (codes "ceo buys more shares")
      (record { numerator = 3; denominator = 4 })
    ≡ true
unfolding ratio_at_least
close_titles = refl
