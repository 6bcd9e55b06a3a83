-- ===== src/Lifecycle/Ledger.antt =====
-- The table `notifications` as a ledger of deliveries: how many delivered notifications an event
-- has, against its status.
use argus_core.Common.{
  ℕ, suc, ◌+◌, ◌≡◌, ◌≢◌, refl, ◌∙◌, sym, ap, false, ◌&&◌, List, [], ◌∷◌, ◌++◌, Option, none, some,
  arith, ◌==◌, ==_iff, Bool-cases, inl, inr, if◌then◌else◌,
}
use mathlib.Core.Path.{subst}
use argus_core.Models.{Status, status_eq, RawEvent, Notification}
use argus_core.Store.{find, save, find-save, find-save_ne}

unfoldable pub delivered_count : ℕ → List Notification → ℕ
delivered_count i [] = 0
delivered_count i (n ∷ ns) =
    if n.delivered && n.event_id == i then suc (delivered_count i ns) else delivered_count i ns

abbrev pub sent_flag : Option RawEvent → ℕ
sent_flag none = 0
sent_flag (some r) = if status_eq r.status Status.sent then 1 else 0

pub record Ledger (rows : List RawEvent) (notes : List Notification) : Type 0 where
  pub at : (i : ℕ) → delivered_count i notes ≡ sent_flag (find i rows)

delivered_count-append :
    (i : ℕ) (ns : List Notification) (n : Notification)
    → delivered_count i (ns ++ n ∷ [])
      ≡ delivered_count i ns + (if n.delivered && n.event_id == i then 1 else 0)
unfolding delivered_count
delivered_count-append i [] n = ground arith
delivered_count-append i (x ∷ ns) n = ground (arith, delivered_count-append i ns n)

module _ (rows : List RawEvent) (notes : List Notification) (e e' : RawEvent)
    (there : find e.id rows ≡ some e) (same : e'.id ≡ e.id)
    (unsent : status_eq e.status Status.sent ≡ false) where
  was_zero : Ledger rows notes → delivered_count e.id notes ≡ 0
  was_zero l = l.at e.id ∙ rw there (rw unsent)

  now_here : find e.id (save e' rows) ≡ some e'
  now_here = find-save e.id e' rows e (rw same there) ∙ ground (arith, same)

  elsewhere : (i : ℕ) → e.id ≢ i → find i (save e' rows) ≡ find i rows
  elsewhere i ne = find-save_ne i e' rows (λ p. ne (sym same ∙ p))

  -- A round that ends the row unsent, and adds no delivered notification.
  pub Ledger-unsent :
      status_eq e'.status Status.sent ≡ false → Ledger rows notes → Ledger (save e' rows) notes
  Ledger-unsent still l = record {
    at = λ i. elim (Bool-cases (e.id == i)) [
      | inl here ↦
          subst (λ j. delivered_count j notes ≡ sent_flag (find j (save e' rows)))
            ((==_iff e.id i).0 here) (was_zero l ∙ rw (now_here, still) refl)
      | inr apart ↦ l.at i ∙ ap sent_flag (sym (elsewhere i (ground arith)))
    ];
  }

  -- A round that adds one notification for its row, delivered exactly if the row ends as sent.
  pub Ledger-notify :
      (n : Notification)
      → n.event_id ≡ e.id
      → n.delivered ≡ status_eq e'.status Status.sent
      → Ledger rows notes
      → Ledger (save e' rows) (notes ++ n ∷ [])
  Ledger-notify n own done l = record {
    at = λ i. elim (Bool-cases (e.id == i)) [
      | inl here ↦
          subst (λ j. delivered_count j (notes ++ n ∷ []) ≡ sent_flag (find j (save e' rows)))
            ((==_iff e.id i).0 here)
            (rw now_here (ground (arith, delivered_count-append e.id notes n, was_zero l)))
      | inr apart ↦ ground (arith, delivered_count-append i notes n, l.at i, elsewhere i)
    ];
  }
