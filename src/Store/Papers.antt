-- ===== src/Store/Papers.antt =====
-- settlement_repository.go, anticipation_repository.go and chargeback_repository.go of
-- internal/infrastructure/postgres.
use adquirente.Base.{String, str_eq, List, []}
use adquirente.Base.Int.{ltb_ℤ}
use adquirente.Settlement.{Settlement}
use adquirente.Anticipation.{Anticipation}
use adquirente.Chargeback.{Chargeback}
use adquirente.Store.{Database, Action}
use adquirente.Store.Rows.{insert_in, update_in, find_in}

abbrev pub settlements_of : Database → List (String × Settlement)
settlements_of db = db.settlements

abbrev pub with_settlements : List (String × Settlement) → Database → Database
with_settlements rows db = record db { settlements = rows }

-- The row of a settlement is all but its events.
abbrev pub settlement_row : Settlement → Settlement
settlement_row s = record s { events = [] }

abbrev pub create_settlement : Settlement → Action (Unit {0})
create_settlement s = insert_in settlements_of with_settlements s.id (settlement_row s)

-- The columns that `Update` sets.
abbrev pub set_settlement : Settlement → Settlement → Settlement
set_settlement s old = record old {
  status = s.status;
  external_ref = s.external_ref;
  failure_reason = s.failure_reason;
  version = s.version;
  updated_at = s.updated_at;
}

abbrev pub update_settlement : Settlement → Action (Unit {0})
update_settlement s =
    update_in settlements_of with_settlements s.id (λ old. ltb_ℤ old.version s.version)
      (set_settlement s)

abbrev pub find_settlement : String → String → Action Settlement
find_settlement merchant_id id =
    find_in settlements_of with_settlements id (λ s. str_eq s.merchant_id merchant_id)

abbrev pub anticipations_of : Database → List (String × Anticipation)
anticipations_of db = db.anticipations

abbrev pub with_anticipations : List (String × Anticipation) → Database → Database
with_anticipations rows db = record db { anticipations = rows }

abbrev pub create_anticipation : Anticipation → Action (Unit {0})
create_anticipation a =
    insert_in anticipations_of with_anticipations a.id (record a { events = [] })

abbrev pub find_anticipation : String → String → Action Anticipation
find_anticipation merchant_id id =
    find_in anticipations_of with_anticipations id (λ a. str_eq a.merchant_id merchant_id)

abbrev pub chargebacks_of : Database → List (String × Chargeback)
chargebacks_of db = db.chargebacks

abbrev pub with_chargebacks : List (String × Chargeback) → Database → Database
with_chargebacks rows db = record db { chargebacks = rows }

abbrev pub create_chargeback : Chargeback → Action (Unit {0})
create_chargeback c = insert_in chargebacks_of with_chargebacks c.id (record c { events = [] })

abbrev pub update_chargeback : Chargeback → Action (Unit {0})
update_chargeback c =
    update_in chargebacks_of with_chargebacks c.id (λ old. ltb_ℤ old.version c.version)
      (λ old. record old { status = c.status; resolved_at = c.resolved_at; version = c.version })

abbrev pub find_chargeback : String → String → Action Chargeback
find_chargeback merchant_id id =
    find_in chargebacks_of with_chargebacks id (λ c. str_eq c.merchant_id merchant_id)
