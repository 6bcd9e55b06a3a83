-- ===== src/Notifier/Digest/Marks.antt =====
-- What marking the events of a digest as sent (src/argus/notifier/digest.py) does to the tables.
use argus_core.Common.{
  ℕ, ◌+◌, ◌≡◌, ◌≢◌, refl, ◌∙◌, List, [], ◌∷◌, some, arith, length, length-append, All, for_each,
}
use argus_core.Models.{RawEvent}
use argus_core.Store.{
  Db, find, save, find-save, Distinct, Loaded, Loaded-save, write, add_notification,
}
use argus_core.Lifecycle.{Evolves}
use argus_core.Lifecycle.Drain.{
  drain-Evolves, drain-Distinct, drain-All, drain-untouched, drain-keeps, drain-maintains,
}
use argus_core.Lifecycle.Ledger.{Ledger, Ledger-notify}
use argus_core.Lifecycle.Bills.{Bills, Bills-save, Noted, Noted-notify}
use argus_core.Lifecycle.Rooted.{ValidResolve, ValidResolve-save}
use argus_core.Poll.Inserts.{UniqueExternal}
use argus_core.Poll.Saves.{UniqueExternal-save}
use argus_core.Notifier.Worker.{delivered, delivery_note}
use argus_core.Notifier.Worker.Effects.{IsProcessed, delivered-Edge, delivered-RowValid}
use argus_core.Notifier.Digest.{mark_sent}

abbrev pub rows : Db → List RawEvent
rows db = db.raw_events

module _ (t : ℕ) where
  marks : (e : RawEvent) (db : Db) → rows (mark_sent t e db) ≡ save (delivered t e) (rows db)
  unfolding mark_sent write add_notification
  marks e db = refl

  pub mark_all-Evolves :
      (es : List RawEvent) (db : Db)
      → Loaded (rows db) es
      → All IsProcessed es
      → Evolves (rows db) (rows (for_each (mark_sent t) es db))
  mark_all-Evolves =
      drain-Evolves rows (mark_sent t) (λ e _. delivered t e) marks IsProcessed
        (λ e _ h. delivered-Edge t e h)

  pub mark_all-Distinct :
      (es : List RawEvent) (db : Db)
      → Distinct (rows db)
      → Distinct (rows (for_each (mark_sent t) es db))
  mark_all-Distinct =
      drain-Distinct rows (mark_sent t) (λ e _. delivered t e) marks IsProcessed
        (λ e _ h. delivered-Edge t e h)

  pub mark_all-UniqueExternal :
      (es : List RawEvent) (db : Db)
      → Loaded (rows db) es
      → All IsProcessed es
      → UniqueExternal (rows db)
      → UniqueExternal (rows (for_each (mark_sent t) es db))
  mark_all-UniqueExternal =
      drain-keeps rows (mark_sent t) (λ e _. delivered t e) marks IsProcessed
        (λ e _ h. delivered-Edge t e h) UniqueExternal
        (λ e db pre there.
          let edge = delivered-Edge t e pre in
          UniqueExternal-save e (delivered t e) edge.source edge.external_id (rows db)
            (rw edge.id there))

  pub mark_all-AllResolve :
      (es : List RawEvent) (db : Db)
      → Loaded (rows db) es
      → All IsProcessed es
      → ValidResolve (rows db)
      → ValidResolve (rows (for_each (mark_sent t) es db))
  mark_all-AllResolve =
      drain-keeps rows (mark_sent t) (λ e _. delivered t e) marks IsProcessed
        (λ e _ h. delivered-Edge t e h) ValidResolve
        (λ e db pre there.
          ValidResolve-save (rows db) e (delivered t e) there (delivered-Edge t e pre) pre
            (delivered-RowValid t e pre))

  pub mark_all-All :
      (P : RawEvent → Type 0)
      → ((e : RawEvent) → IsProcessed e → P e → P (delivered t e))
      → (es : List RawEvent) (db : Db) → All IsProcessed es
      → All P es
      → All P (rows db)
      → All P (rows (for_each (mark_sent t) es db))
  mark_all-All P keep =
      drain-All rows (mark_sent t) (λ e _. delivered t e) marks IsProcessed
        (λ e _ h. delivered-Edge t e h) P (λ e _ h v. keep e h v)

  pub mark_all-untouched :
      (i : ℕ) (es : List RawEvent) (db : Db)
      → All IsProcessed es
      → All (λ e. e.id ≢ i) es
      → find i (rows (for_each (mark_sent t) es db)) ≡ find i (rows db)
  mark_all-untouched =
      drain-untouched rows (mark_sent t) (λ e _. delivered t e) marks IsProcessed
        (λ e _ h. delivered-Edge t e h)

  mark_sent-Ledger :
      (e : RawEvent) (db : Db)
      → IsProcessed e
      → find e.id (rows db) ≡ some e
      → Ledger (rows db) db.notifications
      → Ledger (rows (mark_sent t e db)) (mark_sent t e db).notifications
  unfolding mark_sent write add_notification delivered
  mark_sent-Ledger e db h there l =
      Ledger-notify (rows db) db.notifications e (delivered t e) there refl (rw h refl)
        (delivery_note e.id) refl refl l

  -- A run of marks keeps what each mark of a processed row keeps.
  mark_all-maintains :
      (P : Db → Type 0)
      → ((e : RawEvent) (db : Db)
          → IsProcessed e
          → find e.id (rows db) ≡ some e
          → P db
          → P (mark_sent t e db))
      → (es : List RawEvent) (db : Db) → Loaded (rows db) es
      → All IsProcessed es
      → P db
      → P (for_each (mark_sent t) es db)
  mark_all-maintains =
      drain-maintains rows (mark_sent t) (λ e _. delivered t e) marks IsProcessed
        (λ e _ h. delivered-Edge t e h)

  pub mark_all-Ledger :
      (es : List RawEvent) (db : Db)
      → Loaded (rows db) es
      → All IsProcessed es
      → Ledger (rows db) db.notifications
      → let db' = for_each (mark_sent t) es db in Ledger (rows db') db'.notifications
  mark_all-Ledger = mark_all-maintains (λ x. Ledger (rows x) x.notifications) mark_sent-Ledger

  pub mark_all-Bills :
      (es : List RawEvent) (db : Db)
      → Loaded (rows db) es
      → All IsProcessed es
      → Bills (rows db) db.llm_calls
      → let db' = for_each (mark_sent t) es db in Bills (rows db') db'.llm_calls
  unfolding mark_sent write add_notification delivered
  mark_all-Bills =
      mark_all-maintains (λ x. Bills (rows x) x.llm_calls)
        (λ e db h there. Bills-save (rows db) db.llm_calls e (delivered t e) there refl refl)

  pub mark_all-Noted :
      (es : List RawEvent) (db : Db)
      → Loaded (rows db) es
      → All IsProcessed es
      → Noted (rows db) db.notifications
      → let db' = for_each (mark_sent t) es db in Noted (rows db') db'.notifications
  unfolding mark_sent write add_notification
  mark_all-Noted =
      mark_all-maintains (λ x. Noted (rows x) x.notifications)
        (λ e db h there.
          Noted-notify e (delivered t e) (rows db) db.notifications (delivery_note e.id) there refl)

  -- Every event of the list ends as delivered.
  pub mark_all-delivered :
      (es : List RawEvent) (db : Db)
      → Loaded (rows db) es
      → All IsProcessed es
      → All (λ e. find e.id (rows (for_each (mark_sent t) es db)) ≡ some (delivered t e)) es
  unfolding for_each
  mark_all-delivered [] db loaded ready = tt
  mark_all-delivered (e ∷ es) db loaded ready =
      let same = (delivered-Edge t e ready.0).id in
      let rest : Loaded (rows (mark_sent t e db)) es =
        rw marks (Loaded-save e (delivered t e) same loaded) in
      (
        mark_all-untouched e.id es (mark_sent t e db) ready.1 loaded.distinct.0
            ∙ rw marks (
                find-save e.id (delivered t e) (rows db) e (rw same loaded.found.0)
                ∙ ground (arith, same)),
        mark_all-delivered es (mark_sent t e db) rest ready.1,
      )

  pub mark_all-notes :
      (es : List RawEvent) (db : Db)
      → length (for_each (mark_sent t) es db).notifications ≡ length db.notifications + length es
  unfolding for_each mark_sent write add_notification
  mark_all-notes [] db = omega arith
  mark_all-notes (e ∷ es) db = omega (
    arith,
    mark_all-notes es (mark_sent t e db),
    length-append {0} db.notifications (delivery_note e.id ∷ []),
  )
