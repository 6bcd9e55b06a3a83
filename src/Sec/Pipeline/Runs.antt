-- ===== src/Sec/Pipeline/Runs.antt =====
-- Runs of src/argus/sec_poller/pipeline.py: the filter, and the rows that they add.
use argus_core.Common.{
  ap, ℕ, ◌≤◌, ◌≡◌, refl, sym, ◌∙◌, ◌↔◌, ◌⊎◌, inl, inr, true, false, List, [], Option, none, some,
  leb, leb→le, le→leb, Bool-cases, if◌then◌else◌,
}
use mathlib.Core.List.{append-nil}
use argus_core.Common.Text.{Text, codes, text_eq, text_eq_iff}
use argus_core.Models.{RawEvent, Draft, PollerMeta}
use argus_core.Store.{Distinct}
use argus_core.Unicode.{Unicode}
use argus_core.Poll.{Inbox}
use argus_core.Poll.Inserts.{UniqueExternal, Inserted, offer-Inserted}
use argus_core.Poll.Growth.{Grown, offer-Grown}
use argus_core.Poll.Batches.{for_each_or_raise_inv}
use argus_core.Sec.Edgar.{Form4Data, Numerals, parse_form4}
use argus_core.Sec.Pipeline.{Form4Filter, SecEnv, keep, source, draft, offered, process_url, ingest}

-- A purchase at or above the one threshold, or a sale at or above the other.
abbrev pub Large : Form4Filter → Text → ℕ → Type 0
Large f code value =
    ((code ≡ codes "P") × (f.buy_min_usd ≤ value)) ⊎ ((code ≡ codes "S") × (f.sell_min_usd ≤ value))

-- The Form 4 filter keeps a transaction exactly if it is a purchase of at least the one threshold
-- or a sale of at least the other.
pub keep_iff :
    (f : Form4Filter) (code : Text) (value : ℕ) → (keep f code value ≡ true) ↔ Large f code value
unfolding keep text_eq
keep_iff f code value = (kept, large)
  where
    kept :
        (if text_eq code (codes "P")
            then leb f.buy_min_usd value
            else if text_eq code (codes "S")
            then leb f.sell_min_usd value
            else false)
          ≡ true
        → Large f code value
    kept h = elim (Bool-cases (text_eq code (codes "P"))) [
      | inl buy ↦
          inl ((text_eq_iff code (codes "P")).0 buy, leb→le f.buy_min_usd value (rw buy at h))
      | inr other ↦ elim (Bool-cases (text_eq code (codes "S"))) [
        | inl sale ↦ inr (
          (text_eq_iff code (codes "S")).0 sale,
          leb→le f.sell_min_usd value (rw (other, sale) at h),
        )
        | inr neither ↦ absurd (cc (rw (other, neither) at h))
      ]
    ]

    large :
        Large f code value
        → (if text_eq code (codes "P")
            then leb f.buy_min_usd value
            else if text_eq code (codes "S")
            then leb f.sell_min_usd value
            else false)
          ≡ true
    large (inl (p, enough)) = rw p (le→leb f.buy_min_usd value enough)
    large (inr (p, enough)) = rw p (le→leb f.sell_min_usd value enough)

-- An event of the pipeline: a large purchase or sale, as its metadata say.
pub record IsLargeTrade (f : Form4Filter) (e : RawEvent) : Type 0 where
  pub from_sec : e.source ≡ source
  pub meta : PollerMeta
  pub code : Text
  pub value : ℕ
  pub has_meta : e.poller_meta ≡ some meta
  pub has_code : meta.transaction_type ≡ some code
  pub has_value : meta.value_usd ≡ some value
  pub large : Large f code value

module _ {W : Type 0} (u : Unicode) (numerals : Numerals) (filter : Form4Filter)
    (env : SecEnv W) where
  offered-IsLargeTrade :
      (url : Text) (o : Option Form4Data) (d : Draft)
      → offered u numerals filter env url o ≡ some d
      → (e : RawEvent) → e.source ≡ d.source
      → e.poller_meta ≡ d.poller_meta
      → IsLargeTrade filter e
  unfolding offered draft
  offered-IsLargeTrade url none d h e p q = absurd (cc)
  offered-IsLargeTrade url (some f) d h e p q =
      elim (Bool-cases (keep filter f.transaction_code f.value_usd)) [
        | inl kept ↦
            let same : draft u numerals filter env url f ≡ d = cc (rw kept at h) in
            record {
              from_sec = p ∙ sym (ap (λ x. x.source) same);
              meta = record {
                filer_name = some f.filer_name;
                filer_role = some f.filer_role;
                transaction_type = some f.transaction_code;
                value_usd = some f.value_usd;
              };
              code = f.transaction_code;
              value = f.value_usd;
              has_meta = q ∙ sym (ap (λ x. x.poller_meta) same);
              has_code = refl;
              has_value = refl;
              large = (keep_iff filter f.transaction_code f.value_usd).0 kept;
            }
        | inr dropped ↦ absurd (cc (rw dropped at h))
      ]

  module _ (urls : List Text) (rows : List RawEvent) (w : W) (s : Inbox W)
      (ended : ingest u numerals filter env urls rows w ≡ some s) where
    -- If ids are unique, and so are the pairs of source and external id, then both are still so
    -- after a run of the SEC pipeline that ends; the run only appends rows, as many as it counts,
    -- each new and with no retries and no original.
    pub ingest-Inserted : Distinct rows → UniqueExternal rows → Inserted rows s
    unfolding ingest
    ingest-Inserted d unique =
        for_each_or_raise_inv (Inserted rows) (process_url u numerals filter env) step urls _ s
          ended
          (record {
            distinct = d;
            unique = unique;
            added = [];
            appended = sym (append-nil rows);
            counted = refl;
            all_fresh = tt;
          })
      where
        step :
            (url : Text) (t t' : Inbox W)
            → process_url u numerals filter env url t ≡ some t'
            → Inserted rows t
            → Inserted rows t'
        step url t t' e h =
            unfold process_url in
            (let (answer, v) = env.fetch url t.world in
              offer-Inserted env.sources rows
                (offered u numerals filter env url (parse_form4 u numerals answer))
                (record t { world = v }) t' e
                (record {
                  distinct = h.distinct;
                  unique = h.unique;
                  added = h.added;
                  appended = h.appended;
                  counted = h.counted;
                  all_fresh = h.all_fresh;
                }))

    -- Every row that a run of the SEC pipeline adds is a purchase or a sale at or above the
    -- threshold for its kind, by the transaction type and the value in its metadata; the other
    -- rows are left alone.
    pub ingest_large_only : Grown env.sources (IsLargeTrade filter) rows s
    unfolding ingest
    ingest_large_only =
        for_each_or_raise_inv (Grown env.sources (IsLargeTrade filter) rows)
          (process_url u numerals filter env) step urls _ s ended
          (record { added = []; appended = sym (append-nil rows); good = tt })
      where
        step :
            (url : Text) (t t' : Inbox W)
            → process_url u numerals filter env url t ≡ some t'
            → Grown env.sources (IsLargeTrade filter) rows t
            → Grown env.sources (IsLargeTrade filter) rows t'
        step url t t' e g =
            unfold process_url in
            (let (answer, v) = env.fetch url t.world in
              let o = parse_form4 u numerals answer in
              offer-Grown env.sources (IsLargeTrade filter) rows
                (offered u numerals filter env url o) (record t { world = v }) t'
                (offered-IsLargeTrade url o) e
                (record { added = g.added; appended = g.appended; good = g.good }))
