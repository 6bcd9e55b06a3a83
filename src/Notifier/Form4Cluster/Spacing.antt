-- ===== src/Notifier/Form4Cluster/Spacing.antt =====
-- How the rows of form4_clusters that src/argus/notifier/form4_cluster.py writes lie in time.
use mathlib.Core.Path.{subst}
use argus_core.Common.{
  ℕ, ◌-◌, ◌≤◌, ◌<◌, ◌≡◌, ◌≢◌, refl, sym, ap, ◌∙◌, Bool, false, List, [], ◌∷◌, ◌++◌, map, none, some,
  arith, All, All-map, All-append, Bool-cases, inl, inr, ◌==◌, ==_iff,
}
use argus_core.Common.Text.{Text, text_eq_iff}
use argus_core.Models.{Form4Cluster, hours}
use argus_core.Notifier.Embeds.{Embed}
use argus_core.Notifier.Form4Cluster.{is_open, first, save_cluster, Surroundings}

-- What identifies and places a row.
pub record Place : Type 0 where
  pub id : ℕ
  pub ticker : Text
  pub created_at : ℕ

abbrev pub place : Form4Cluster → Place
place c = record { id = c.id; ticker = c.ticker; created_at = c.created_at }

abbrev pub places : List Form4Cluster → List Place
places cs = map place cs

-- A row is older than each later one of its ticker by more than the window.
abbrev pub Spaced : ℕ → List Place → Type 0
Spaced window_h [] = Unit
Spaced window_h (p ∷ ps) =
    All (λ q. q.ticker ≡ p.ticker → p.created_at < q.created_at - hours window_h) ps
    × Spaced window_h ps

abbrev pub DistinctIds : List Place → Type 0
DistinctIds [] = Unit
DistinctIds (p ∷ ps) = All (λ q. q.id ≢ p.id) ps × DistinctIds ps

-- What the database driver promises of fresh ids: they were not given out before. `Issued w i` says that
-- `i` was given out before the world was in the state `w`.
pub record Ids {W : Type 0} (env : Surroundings W) : Type 1 where
  pub Issued : W → ℕ → Type 0
  pub fresh_unused : (w : W) → Issued w (env.fresh w).0 → ⊥
  pub fresh_issued : (w : W) → Issued (env.fresh w).1 (env.fresh w).0
  pub kept_by_fresh : (w : W) (i : ℕ) → Issued w i → Issued (env.fresh w).1 i
  pub kept_by_now : (w : W) (i : ℕ) → Issued w i → Issued (env.now w).1 i
  pub kept_by_send :
      (w : W) (i : ℕ) (embeds : List Embed) → Issued w i → Issued (env.discord.send embeds w).1 i
  pub kept_by_commit : (w : W) (i : ℕ) → Issued w i → Issued (env.commit w).1 i

first-All :
    (Q : Form4Cluster → Type 0) (p : Form4Cluster → Bool) (cs : List Form4Cluster)
    (c : Form4Cluster)
    → All Q cs
    → first p cs ≡ some c
    → Q c
unfolding first
first-All Q p [] c h e = absurd (cc)
first-All Q p (x ∷ cs) c h e = elim (Bool-cases (p x)) [
  | inl here ↦ let same : x ≡ c = ground arith in subst Q same h.0
  | inr later ↦ first-All Q p cs c h.1 (ground arith)
]

pub first-none :
    (p : Form4Cluster → Bool) (cs : List Form4Cluster)
    → first p cs ≡ none
    → All (λ x. p x ≡ false) cs
unfolding first
first-none p [] e = tt
first-none p (x ∷ cs) e = elim (Bool-cases (p x)) [
  | inl here ↦ absurd (ground arith)
  | inr later ↦ (later, first-none p cs (ground arith))
]

All-of_places :
    (P : Place → Type 0) (cs : List Form4Cluster) → All P (places cs) → All (λ c. P (place c)) cs
All-of_places P [] h = tt
All-of_places P (c ∷ cs) h = (h.0, All-of_places P cs h.1)

pub All-to_places :
    (P : Place → Type 0) (cs : List Form4Cluster) → All (λ c. P (place c)) cs → All P (places cs)
All-to_places P [] h = tt
All-to_places P (c ∷ cs) h = (h.0, All-to_places P cs h.1)

pub places-append :
    (cs : List Form4Cluster) (c : Form4Cluster) → places (cs ++ c ∷ []) ≡ places cs ++ place c ∷ []
places-append [] c = refl
places-append (x ∷ cs) c = ap (λ ps. place x ∷ ps) (places-append cs c)

-- A row with the id of one that was found is that row, as far as its place goes.
pub found_alone :
    (p : Form4Cluster → Bool) (cs : List Form4Cluster) (c : Form4Cluster)
    → DistinctIds (places cs)
    → first p cs ≡ some c
    → All (λ x. x.id ≡ c.id → place x ≡ place c) cs
unfolding first
found_alone p [] c d e = tt
found_alone p (x ∷ cs) c d e =
    let apart = All-of_places (λ q. q.id ≢ x.id) cs d.0 in
    elim (Bool-cases (p x)) [
      | inl here ↦
          let same : x ≡ c = ground arith in
          (
            (λ _. ap place same),
            All-map (λ y ne is. absurd (ne (is ∙ ap (λ r. r.id) (sym same)))) cs apart,
          )
      | inr later ↦
          let rest : first p cs ≡ some c = ground arith in
          let ne = first-All (λ y. y.id ≢ x.id) p cs c apart rest in
          ((λ is. absurd (ne (sym is))), found_alone p cs c d.1 rest)
    ]

pub save-places :
    (c : Form4Cluster) (cs : List Form4Cluster)
    → All (λ x. x.id ≡ c.id → place x ≡ place c) cs
    → places (save_cluster c cs) ≡ places cs
unfolding save_cluster
save-places c [] h = refl
save-places c (x ∷ cs) h = elim (Bool-cases (x.id == c.id)) [
  | inl here ↦ rw here (ap (λ k. k ∷ places cs) (sym (h.0 ((==_iff x.id c.id).0 here))))
  | inr later ↦ rw later (ap (λ ks. place x ∷ ks) (save-places c cs h.1))
]

-- A row at the end, younger than the rows of its ticker by more than the window.
pub Spaced-append :
    (window_h : ℕ) (ps : List Place) (p : Place)
    → Spaced window_h ps
    → All (λ q. p.ticker ≡ q.ticker → q.created_at < p.created_at - hours window_h) ps
    → Spaced window_h (ps ++ p ∷ [])
Spaced-append window_h [] p s h = (tt, tt)
Spaced-append window_h (q ∷ ps) p s h = (
  All-append (λ r. r.ticker ≡ q.ticker → q.created_at < r.created_at - hours window_h) ps (p ∷ [])
      s.0 (h.0, tt),
  Spaced-append window_h ps p s.1 h.1,
)

pub DistinctIds-append :
    (ps : List Place) (p : Place)
    → DistinctIds ps
    → All (λ q. p.id ≢ q.id) ps
    → DistinctIds (ps ++ p ∷ [])
DistinctIds-append [] p d h = (tt, tt)
DistinctIds-append (q ∷ ps) p d h =
    (All-append (λ r. r.id ≢ q.id) ps (p ∷ []) d.0 (h.0, tt), DistinctIds-append ps p d.1 h.1)

-- A row of the ticker that is not open is older than the window.
pub closed_before :
    (now window_h : ℕ) (ticker : Text) (c : Form4Cluster) (created : ℕ)
    → now ≤ created
    → is_open now window_h ticker c ≡ false
    → ticker ≡ c.ticker
    → c.created_at < created - hours window_h
unfolding is_open
closed_before now window_h ticker c created le h same =
    let there = (text_eq_iff c.ticker ticker).1 (sym same) in ground arith
