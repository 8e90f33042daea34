-- ===== src/Payment/Lifecycle.antt =====
-- The life of a payment under any sequence of calls (apps/demo/src/payment.rs).
use trust_ledger.Common.{ℕ, ◌≡◌, some, List, [], ◌∷◌, refl, ap, ◌∙◌}
use trust_ledger.Vocabulary.{Timestamp}
use trust_ledger.Payment.{
  Payment, captured, voided, refunded, new_authorized, Transition, moved, stuck,
  transition_to_captured, transition_to_voided, transition_to_refunded,
}

-- A call of a transition.
pub data PaymentCall : Type 0 where
  capture : ℕ → Timestamp → PaymentCall
  void refund : Timestamp → PaymentCall

abbrev pub result_of : Transition → Payment
result_of (moved p) = p
result_of (stuck e p) = p

abbrev pub perform : PaymentCall → Payment → Payment
perform (capture posted_transfer_id timestamp) p =
    result_of (transition_to_captured posted_transfer_id timestamp p)
perform (void timestamp) p = result_of (transition_to_voided timestamp p)
perform (refund timestamp) p = result_of (transition_to_refunded timestamp p)

abbrev pub perform_all : List PaymentCall → Payment → Payment
perform_all [] p = p
perform_all (c ∷ cs) p = perform_all cs (perform c p)

-- The life of a payment: waiting, or ended by a first call, with the arguments that the calls had.
pub data Life : Type 0 where
  waiting : Life
  captured_by : ℕ → Timestamp → Life
  voided_at : Timestamp → Life
  refunded_at : ℕ → Timestamp → Life

-- A waiting payment is captured or voided, a captured one is refunded, and nothing else happens.
abbrev pub live : PaymentCall → Life → Life
live (capture n t) waiting = captured_by n t
live (capture n t) (captured_by n' t') = captured_by n' t'
live (capture n t) (voided_at t') = voided_at t'
live (capture n t) (refunded_at n' t') = refunded_at n' t'
live (void t) waiting = voided_at t
live (void t) (captured_by n' t') = captured_by n' t'
live (void t) (voided_at t') = voided_at t'
live (void t) (refunded_at n' t') = refunded_at n' t'
live (refund t) waiting = waiting
live (refund t) (captured_by n' t') = refunded_at n' t
live (refund t) (voided_at t') = voided_at t'
live (refund t) (refunded_at n' t') = refunded_at n' t'

abbrev pub live_all : List PaymentCall → Life → Life
live_all [] life = life
live_all (c ∷ cs) life = live_all cs (live c life)

-- The payment that began as `p`, in a life.
abbrev pub payment_in : Payment → Life → Payment
payment_in p waiting = p
payment_in p (captured_by n t) = record p {
  state = captured;
  posted_transfer_id = some n;
  updated_at = t;
}
payment_in p (voided_at t) = record p { state = voided; updated_at = t }
payment_in p (refunded_at n t) = record p {
  state = refunded;
  posted_transfer_id = some n;
  updated_at = t;
}

module _ (id merchant_id customer_id amount fee_amount hold : ℕ) (timestamp : Timestamp) where
  abbrev begun : Payment
  begun = new_authorized id merchant_id customer_id amount fee_amount hold timestamp

  perform-live :
      (c : PaymentCall) (life : Life)
      → perform c (payment_in begun life) ≡ payment_in begun (live c life)
  unfolding transition_to_captured transition_to_voided transition_to_refunded
  perform-live (capture n t) waiting = refl
  perform-live (capture n t) (captured_by n' t') = refl
  perform-live (capture n t) (voided_at t') = refl
  perform-live (capture n t) (refunded_at n' t') = refl
  perform-live (void t) waiting = refl
  perform-live (void t) (captured_by n' t') = refl
  perform-live (void t) (voided_at t') = refl
  perform-live (void t) (refunded_at n' t') = refl
  perform-live (refund t) waiting = refl
  perform-live (refund t) (captured_by n' t') = refl
  perform-live (refund t) (voided_at t') = refl
  perform-live (refund t) (refunded_at n' t') = refl

  perform_all-live_from :
      (calls : List PaymentCall) (life : Life)
      → perform_all calls (payment_in begun life) ≡ payment_in begun (live_all calls life)
  perform_all-live_from [] life = refl
  perform_all-live_from (c ∷ calls) life =
      ap (perform_all calls) (perform-live c life) ∙ perform_all-live_from calls (live c life)

-- Whatever transitions are called on a new payment, allowed or refused, it is what its life makes of
-- it: the first capture or void that comes decides, with its arguments, a refund counts behind a
-- capture only and keeps its transfer, every other call changes nothing, and no field but the state,
-- the posted transfer and the time of the last change ever changes.
pub perform_all-live_all :
    (id merchant_id customer_id amount fee_amount hold : ℕ) (timestamp : Timestamp)
    (calls : List PaymentCall)
    → let p = new_authorized id merchant_id customer_id amount fee_amount hold timestamp in
      perform_all calls p ≡ payment_in p (live_all calls waiting)
perform_all-live_all id merchant_id customer_id amount fee_amount hold timestamp calls =
    perform_all-live_from id merchant_id customer_id amount fee_amount hold timestamp calls waiting
