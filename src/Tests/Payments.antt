-- ===== src/Tests/Payments.antt =====
-- The theorems about payments at concrete values.
use trust_ledger.Common.{List, ◌≡◌, ◌∷◌, [], refl}
use trust_ledger.Payment.{
  Payment, new_authorized, captured, transition_to_captured, transition_to_voided,
}
use trust_ledger.Payment.Lifecycle.{
  PaymentCall, perform_all, capture, void, refund, payment_in, refunded_at, perform_all-live_all,
}

abbrev coffee : Payment
coffee = new_authorized 7 1 2 450 10 901 100

-- A captured payment cannot be voided.
coffee-captured : (perform_all (capture 902 101 ∷ void 102 ∷ []) coffee).state ≡ captured
unfolding transition_to_captured transition_to_voided
coffee-captured = refl

abbrev visits : List PaymentCall
visits = capture 902 101 ∷ capture 903 102 ∷ void 103 ∷ refund 104 ∷ capture 905 105 ∷ []

perform_all-live_all_example : perform_all visits coffee ≡ payment_in coffee (refunded_at 902 104)
perform_all-live_all_example = perform_all-live_all 7 1 2 450 10 901 100 visits
