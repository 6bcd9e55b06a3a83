-- ===== src/Processor/Dedup/Matcher/Equal.antt =====
-- What the matching that src/argus/processor/dedup.py takes from difflib does on two equal texts.
use mathlib.Core.Path.{subst}
use mathlib.Core.List.{reverse, reverse_aux}
use native.Mathlib.Nat.{mul-le-mul_right}
use argus_core.Common.{
  ℕ, zero, suc, ap, sym, ◌∙◌, ◌==◌, ◌+◌, ◌*◌, ◌≤◌, ◌≡◌, refl, Bool, true, [], ◌∷◌, arith, length,
  take, drop, length-take, if◌then◌else◌,
}
use argus_core.Common.Text.{Text}
use argus_core.Processor.Dedup.Matcher.{
  Block, Ratio, common_prefix, popular, grow, longest_match, matched, ratio_at_least,
}
use argus_core.Processor.Dedup.Matcher.Diagonal.{
  run_of, common_prefix_same, length-drop, Diagonal, best-Diagonal,
}

run_of_all : (a : Text) → run_of (λ _. true) a ≡ length a
unfolding run_of
run_of_all [] = refl
run_of_all (x ∷ a) = ground (arith, run_of_all a)

drop_all : (t : Text) → drop (0 + length t) t ≡ []
drop_all t = ap (λ n. drop n t) (omega arith) ∙ go t
  where
    go : (s : Text) → drop (length s) s ≡ []
    go [] = refl
    go (x ∷ s) = go s

Block-eq : {m n : Block} → m.a_start ≡ n.a_start → m.b_start ≡ n.b_start → m.size ≡ n.size → m ≡ n
Block-eq e f g = λ i. record { a_start = e i; b_start = f i; size = g i }

length-reverse_aux : (s t : Text) → length (reverse_aux s t) ≡ length s + length t
length-reverse_aux [] t = omega arith
length-reverse_aux (x ∷ s) t = omega (arith, length-reverse_aux s (x ∷ t))

common_prefix-all : (t : Text) → common_prefix (λ _. true) t t ≡ length t
common_prefix-all t = common_prefix_same (λ _. true) t ∙ run_of_all t

common_prefix-reverse : (t : Text) → common_prefix (λ _. true) (reverse t) (reverse t) ≡ length t
common_prefix-reverse t = common_prefix-all (reverse t) ∙ omega (arith, length-reverse_aux t [])

module _ (junk : ℕ → Bool) where
  -- Growing a block of the diagonal covers the text.
  grow-same :
      (t : Text) (m : Block)
      → Diagonal t m
      → grow junk t t m ≡ record { a_start = 0; b_start = 0; size = length t }
  unfolding grow
  grow-same t m d =
      let l = common_prefix-reverse (take m.a_start t) in
      let r = common_prefix-all (drop m.a_start t) in
      rw (sym d.same_start, l, r)
        (Block-eq (omega (arith, d.inside, length-take m.a_start t))
          (omega (arith, d.inside, length-take m.a_start t))
          (omega (arith, d.inside, length-take m.a_start t, length-drop m.a_start t)))

  longest_match-same :
      (t : Text) → longest_match junk t t ≡ record { a_start = 0; b_start = 0; size = length t }
  unfolding longest_match
  longest_match-same t = grow-same t _ (best-Diagonal junk t)

  matched_step :
      (fuel : ℕ) (a b : Text) (m : Block)
      → longest_match junk a b ≡ m
      → matched junk (suc fuel) a b ≡ (
          if m.size == 0
          then 0
          else matched junk fuel (take m.a_start a) (take m.b_start b)
            + (m.size
                + matched junk fuel (drop (m.a_start + m.size) a) (drop (m.b_start + m.size) b)))
  unfolding matched
  matched_step fuel a b m h =
      subst
        (λ n. matched junk (suc fuel) a b ≡ (
          if n.size == 0
          then 0
          else matched junk fuel (take n.a_start a) (take n.b_start b)
            + (n.size
                + matched junk fuel (drop (n.a_start + n.size) a) (drop (n.b_start + n.size) b))))
        h refl

  matched-empty : (fuel : ℕ) → matched junk fuel [] [] ≡ 0
  unfolding matched
  matched-empty zero = refl
  matched-empty (suc fuel) = matched_step fuel [] [] _ (longest_match-same [])

  -- A text matches itself from end to end.
  matched-same : (fuel : ℕ) (t : Text) → matched junk (suc fuel) t t ≡ length t
  matched-same fuel t =
      let none_left : drop (0 + length t) t ≡ [] = drop_all t in
      matched_step fuel t t _ (longest_match-same t)
      ∙ rw (none_left, matched-empty fuel) (ground arith)

-- A text is as similar to itself as any threshold of at most 1 asks.
pub ratio-same :
    (t : Text) (threshold : Ratio)
    → threshold.numerator ≤ threshold.denominator
    → ratio_at_least t t threshold ≡ true
unfolding ratio_at_least
ratio-same t threshold le =
    let twice : length t + length t ≡ 2 * length t = omega arith in
    let enough = mul-le-mul_right (2 * length t) le in
    rw (matched-same (popular t) (length t) t, twice) (ground arith)
