-- ===== src/Tests/Sales.antt =====
-- Examples for transactions and cards.
use adquirente.Base.{ℕ, ◌+◌, ◌≤◌, ◌≡◌, ◌↔◌, refl, List, [], ◌∷◌, true}
use adquirente.Base.Int.{pos}
use adquirente.Base.Texts.{codes}
use adquirente.Shared.Error.{ok}
use adquirente.Shared.Money.{Bps}
use adquirente.Shared.Product.{credit}
use adquirente.Transaction.{Transaction, pending, canceled, new_transaction}
use adquirente.Transaction.Card.{luhn, card_info_from_pan, brand_of}
use adquirente.Transaction.Card.Luhn.{luhn_detects}
use adquirente.Transaction.Creation.{IsSale, new_transaction_iff}
use adquirente.Transaction.Graph.{
  Call, capture_call, cancel_call, authorize_call, perform, Moves, perform-Moves,
}
use adquirente.Transaction.Trace.{
  run, IsConsistent, run-IsConsistent, captures, may_capture, captures-run,
}
use adquirente.Tests.Data.{shop, visa, visa_pan, sale, pending_sale, monday}

abbrev calls : List Call
calls =
    authorize_call "e1" "A1" "1" monday
    ∷ capture_call "e2" monday
    ∷ capture_call "e3" monday
    ∷ cancel_call "e4" monday
    ∷ []

perform-Moves_example : Moves canceled sale (perform (cancel_call "e1" monday) sale)
perform-Moves_example = perform-Moves (cancel_call "e1" monday) sale

pending_sale-IsConsistent : IsConsistent pending_sale
pending_sale-IsConsistent = record {
  authorized_when = refl;
  captured_when = refl;
  canceled_when = refl;
  drained = refl;
}

run-IsConsistent_example : IsConsistent (run calls pending_sale).1
run-IsConsistent_example = run-IsConsistent calls pending_sale pending_sale-IsConsistent

captures-run_example :
    captures (run calls pending_sale).0 + may_capture (run calls pending_sale).1.status ≤ 1
captures-run_example = captures-run calls pending_sale refl

new_transaction_iff_example :
    (((t : Transaction) × (new_transaction "tx_1" shop (pos 10000) credit (pos 3) visa monday
          ≡ ok t))
      ↔ ((rate : Bps) × IsSale shop (pos 10000) credit (pos 3) visa rate))
    × ((t : Transaction)
        → new_transaction "tx_1" shop (pos 10000) credit (pos 3) visa monday ≡ ok t
        → IsConsistent t
          × (t.status ≡ pending)
          × (t.version ≡ pos 1)
          × (t.amount ≡ pos 10000)
          × (t.product ≡ credit)
          × (t.installments ≡ pos 3)
          × (t.merchant_id ≡ "m_1"))
new_transaction_iff_example = new_transaction_iff "tx_1" shop (pos 10000) credit (pos 3) visa monday

visa_passes : luhn visa_pan ≡ true
unfolding luhn
visa_passes = refl

abbrev one_byte : ℕ
one_byte = b'1'

luhn_detects_example : one_byte ≡ b'1'
luhn_detects_example =
    luhn_detects (codes "41111") (codes "1111111111") one_byte b'1' visa_passes visa_passes

visa_stored : card_info_from_pan "tok_1" visa_pan ≡ ok visa
unfolding card_info_from_pan luhn brand_of
visa_stored = refl
