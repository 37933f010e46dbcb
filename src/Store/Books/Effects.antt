-- ===== src/Store/Books/Effects.antt =====
-- What a statement on the outbox, on the processed events or on the ledger did, when it succeeded.
use mathlib.Core.List.{append-nil, append_assoc}
use adquirente.Base.{
  ◌≡◌, refl, sym, ap, ◌∙◌, Bool, true, false, not, String, List, [], ◌∷◌, ◌++◌, if◌then◌else◌,
}
use adquirente.Shared.Error.{Error, Result, ok}
use adquirente.Ledger.{Entry, balanced}
use adquirente.Store.{Database, World, OutboxEvent, statement, raise}
use adquirente.Store.Laws.{statement-ok, after_ok, pure-ok, SameRest, SameRest-trans}
use adquirente.Store.Tables.{ok_injective}
use adquirente.Store.Books.{append_events, mark, mark_if_new, insert_entries, append_entries}

abbrev pub with_events : List OutboxEvent → Database → Database
with_events evs db = record db { outbox = db.outbox ++ evs }

abbrev pub with_entries : List Entry → Database → Database
with_entries es db = record db { ledger_entries = db.ledger_entries ++ es }

second :
    {A B : Type 0} {a a' : A} {b b' : B}
    → ◌≡◌ {A = Result (A × B)} (ok (a, b)) (ok (a', b'))
    → b' ≡ b
second h = sym (ap (λ p. p.1) (ok_injective h))

no_more : (db : Database) → db ≡ with_events [] db
no_more db = ap (λ es. record db { outbox = es }) (sym (append-nil db.outbox))

one_more :
    (ev : OutboxEvent) (evs : List OutboxEvent) (db : Database)
    → with_events evs (with_events (ev ∷ []) db) ≡ with_events (ev ∷ evs) db
one_more ev evs db = ap (λ es. record db { outbox = es }) (append_assoc db.outbox (ev ∷ []) evs)

pub no_entries : (db : Database) → db ≡ with_entries [] db
no_entries db = ap (λ es. record db { ledger_entries = es }) (sym (append-nil db.ledger_entries))

one_entry :
    (e : Entry) (es : List Entry) (db : Database)
    → with_entries es (with_entries (e ∷ []) db) ≡ with_entries (e ∷ es) db
one_entry e es db =
    ap (λ es. record db { ledger_entries = es }) (append_assoc db.ledger_entries (e ∷ []) es)

pub append_events-ok :
    (evs : List OutboxEvent) (w : World) {u : Unit {0}} {w' : World}
    → append_events evs w ≡ (ok u, w')
    → (w'.database ≡ with_events evs w.database) × SameRest w w'
unfolding append_events
append_events-ok [] w h =
    let same = (pure-ok tt w h).1 in
    (
      sym (ap (λ v. v.database) same) ∙ no_more w.database,
      (sym (ap (λ v. v.nsu) same), sym (ap (λ v. v.calls) same)),
    )
append_events-ok (ev ∷ evs) w {u} {w'} h = after_ok (statement _ w) _ h λ x v ran rest.
    let (one, same) = statement-ok _ w ran in
    let (more, same') = append_events-ok evs v rest in
    (
      more ∙ ap (with_events evs) (second one) ∙ one_more ev evs w.database,
      SameRest-trans w v w' same same',
    )

insert_entries-ok :
    (es : List Entry) (w : World) {u : Unit {0}} {w' : World}
    → insert_entries es w ≡ (ok u, w')
    → (w'.database ≡ with_entries es w.database) × SameRest w w'
unfolding insert_entries
insert_entries-ok [] w h =
    let same = (pure-ok tt w h).1 in
    (
      sym (ap (λ v. v.database) same) ∙ no_entries w.database,
      (sym (ap (λ v. v.nsu) same), sym (ap (λ v. v.calls) same)),
    )
insert_entries-ok (e ∷ es) w {u} {w'} h = after_ok (statement _ w) _ h λ x v ran rest.
    let (one, same) = statement-ok _ w ran in
    let (more, same') = insert_entries-ok es v rest in
    (
      more ∙ ap (with_entries es) (second one) ∙ one_entry e es w.database,
      SameRest-trans w v w' same same',
    )

checked-ok :
    (b : Bool) (es : List Entry) (e : Error) (w : World) {u : Unit {0}} {w' : World}
    → (if not b then raise e else insert_entries es) w ≡ (ok u, w')
    → (b ≡ true) × (insert_entries es w ≡ (ok u, w'))
checked-ok true es e w h = (refl, h)
checked-ok false es e w h = absurd (cc (ap (λ p. p.0) h))

pub append_entries-ok :
    (es : List Entry) (w : World) {u : Unit {0}} {w' : World}
    → append_entries es w ≡ (ok u, w')
    → (balanced es ≡ true) × (w'.database ≡ with_entries es w.database) × SameRest w w'
unfolding append_entries
append_entries-ok es w h =
    let (fits, ran) = checked-ok (balanced es) es _ w h in
    let (tables, same) = insert_entries-ok es w ran in (fits, tables, same)

pub mark_if_new-ok :
    (consumer event_id : String) (w : World) {is_new : Bool} {w' : World}
    → mark_if_new consumer event_id w ≡ (ok is_new, w')
    → (mark (consumer, event_id) w.database ≡ (is_new, w'.database)) × SameRest w w'
unfolding mark_if_new
mark_if_new-ok consumer event_id w h =
    let (ran, same) = statement-ok _ w h in (ok_injective ran, same)
