-- ===== src/Processor/Dedup/Matcher/Diagonal.antt =====
-- What the matching that src/argus/processor/dedup.py takes from difflib does on two equal texts: the best block of the scan lies on the diagonal.
use mathlib.Core.Path.{subst}
use argus_core.Common.{
  ℕ, zero, suc, ap, sym, ==_iff, ◌==◌, Bool-cases, ◌+◌, ◌-◌, ◌≤◌, ◌≡◌, refl, Bool, false, not, [],
  ◌∷◌, arith, ltb, length, drop, if◌then◌else◌, inl, inr,
}
use argus_core.Common.Text.{Text}
use argus_core.Processor.Dedup.Matcher.{Block, common_prefix, scan_a, scan_b}

-- How far a text begins with allowed characters.
unfoldable pub run_of : (ℕ → Bool) → Text → ℕ
run_of ok [] = 0
run_of ok (x ∷ a) = let rest = run_of ok a in if ok x then suc rest else 0

module _ (ok : ℕ → Bool) where
  pub common_prefix_same : (a : Text) → common_prefix ok a a ≡ run_of ok a
  unfolding common_prefix run_of
  common_prefix_same [] = refl
  common_prefix_same (x ∷ a) = ground (arith, common_prefix_same a)

  common_prefix-left : (a b : Text) → common_prefix ok a b ≤ run_of ok a
  unfolding common_prefix run_of
  common_prefix-left [] b = omega arith
  common_prefix-left (x ∷ a) [] = omega arith
  common_prefix-left (x ∷ a) (y ∷ b) = elim (Bool-cases (x == y)) [
    | inl e ↦
        let same : ok x ≡ ok y = ap ok ((==_iff x y).0 e) in ground (arith, common_prefix-left a b)
    | inr e ↦ ground arith
  ]

  common_prefix-right : (a b : Text) → common_prefix ok a b ≤ run_of ok b
  unfolding common_prefix run_of
  common_prefix-right [] b = omega arith
  common_prefix-right (x ∷ a) [] = omega arith
  common_prefix-right (x ∷ a) (y ∷ b) = ground (arith, common_prefix-right a b)

pub length-drop : (n : ℕ) (t : Text) → length (drop n t) ≡ length t - n
length-drop zero t = omega arith
length-drop (suc n) [] = omega arith
length-drop (suc n) (x ∷ t) = omega (arith, length-drop n t)

drop_next : (i x : ℕ) (a t : Text) → x ∷ a ≡ drop i t → a ≡ drop (suc i) t
drop_next zero x a [] h = absurd (cc)
drop_next zero x a (y ∷ t) h = cc
drop_next (suc i) x a [] h = absurd (cc)
drop_next (suc i) x a (y ∷ t) h = drop_next i x a t h

-- A size that is not under the run of any of the first suffixes of a text.
Seen : (ℕ → Bool) → ℕ → Text → ℕ → Type 0
Seen ok zero t s = Unit
Seen ok (suc n) [] s = Unit
Seen ok (suc n) (x ∷ t) s = (run_of ok (x ∷ t) ≤ s) × Seen ok n t s

Seen-next :
    (ok : ℕ → Bool) (n : ℕ) (t : Text) (s r : ℕ)
    → Seen ok n t s
    → s ≤ r
    → run_of ok (drop n t) ≤ r
    → Seen ok (suc n) t r
unfolding Seen
Seen-next ok zero [] s r h le last = tt
Seen-next ok zero (x ∷ t) s r h le last = (last, tt)
Seen-next ok (suc n) [] s r h le last = tt
Seen-next ok (suc n) (x ∷ t) s r h le last = (omega arith, Seen-next ok n t s r h.1 le last)

-- A block on the diagonal, inside the text.
pub record Diagonal (t : Text) (m : Block) : Type 0 where
  pub same_start : m.a_start ≡ m.b_start
  pub inside : m.a_start ≤ length t

module _ (junk : ℕ → Bool) where
  abbrev ok : ℕ → Bool
  ok c = not (junk c)

  -- The longest run at a place of the diagonal, against the best block so far.
  abbrev better : ℕ → Text → Block → Block
  better i a best =
      if ltb best.size (run_of ok a)
      then record { a_start = i; b_start = i; size = run_of ok a }
      else best

  scan_before :
      (n i : ℕ) (a t : Text) (j : ℕ) (best : Block)
      → Seen ok n t best.size
      → scan_b junk i a t j best ≡ scan_b junk i a (drop n t) (j + n) best
  unfolding scan_b Seen
  scan_before zero i a t j best h = ap (λ k. scan_b junk i a t k best) (omega arith)
  scan_before (suc n) i a [] j best h = refl
  scan_before (suc n) i a (y ∷ t) j best h =
      let small : ltb best.size (common_prefix ok a (y ∷ t)) ≡ false =
        ground (arith, common_prefix-right ok a (y ∷ t)) in
      rw (small, scan_before n i a t (j + 1) best h.1)
        (ap (λ k. scan_b junk i a (drop n t) k best) (omega arith))

  scan_after :
      (i : ℕ) (a b : Text) (j : ℕ) (best : Block)
      → run_of ok a ≤ best.size
      → scan_b junk i a b j best ≡ best
  unfolding scan_b
  scan_after i a [] j best h = refl
  scan_after i a (y ∷ b) j best h =
      let small : ltb best.size (common_prefix ok a (y ∷ b)) ≡ false =
        ground (arith, common_prefix-left ok a (y ∷ b)) in
      rw (small, scan_after i a b (j + 1) best h)

  scan_row :
      (i x : ℕ) (a t : Text) (best : Block)
      → x ∷ a ≡ drop i t
      → Seen ok i t best.size
      → scan_b junk i (x ∷ a) t 0 best ≡ better i (x ∷ a) best
  unfolding scan_b
  scan_row i x a t best at h =
      let start : 0 + i ≡ i = omega arith in
      rw (scan_before i i (x ∷ a) t 0 best h, sym at, common_prefix_same ok (x ∷ a), start)
        (scan_after i (x ∷ a) a _ (better i (x ∷ a) best) (ground arith))

  better-Diagonal :
      (i : ℕ) (a t : Text) (best : Block)
      → i ≤ length t
      → Diagonal t best
      → Diagonal t (better i a best)
  better-Diagonal i a t best le d = elim (Bool-cases (ltb best.size (run_of ok a))) [
    | inl e ↦ rw e (record { same_start = refl; inside = le })
    | inr e ↦ rw e d
  ]

  scan_a-Diagonal :
      (i : ℕ) (a t : Text) (best : Block)
      → a ≡ drop i t
      → Seen ok i t best.size
      → Diagonal t best
      → Diagonal t (scan_a junk a i t best)
  unfolding scan_a
  scan_a-Diagonal i [] t best at h d = d
  scan_a-Diagonal i (x ∷ a) t best at h d =
      let there : suc (length a) ≡ length (drop i t) = ap length at in
      let le : i ≤ length t = omega (arith, there, length-drop i t) in
      let grown : best.size ≤ (better i (x ∷ a) best).size = ground arith in
      let last : run_of ok (drop i t) ≤ (better i (x ∷ a) best).size = rw (sym at) (ground arith) in
      let next : suc i ≡ i + 1 = omega arith in
      rw (scan_row i x a t best at h) (
        scan_a-Diagonal (i + 1) a t (better i (x ∷ a) best)
          (subst (λ n. a ≡ drop n t) next (drop_next i x a t at))
          (subst (λ n. Seen ok n t (better i (x ∷ a) best).size) next
            (Seen-next ok i t best.size (better i (x ∷ a) best).size h grown last))
          (better-Diagonal i (x ∷ a) t best le d))

  -- The best block of the whole scan.
  pub best-Diagonal :
      (t : Text) → Diagonal t (scan_a junk t 0 t (record { a_start = 0; b_start = 0; size = 0 }))
  unfolding Seen
  best-Diagonal t =
      scan_a-Diagonal 0 t t _ refl tt (record { same_start = refl; inside = omega arith })
