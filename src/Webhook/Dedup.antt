-- ===== src/Webhook/Dedup.antt =====
-- No event is accepted twice (apps/demo/src/webhook.rs).
use trust_ledger.Common.{
  ℕ, ◌+◌, ◌≡◌, refl, Bool, true, false, List, [], ◌∷◌, ◌==◌, ◌||◌, subst, Bool-cases, same_key,
  if_elim, inl, inr, arith, if◌then◌else◌,
}
use trust_ledger.Webhook.{Checked, ok, err, WebhookDeduplicator, contains, check_and_record}

-- One delivery after the other.
abbrev pub record_all : List ℕ → WebhookDeduplicator → WebhookDeduplicator
record_all [] set = set
record_all (event_id ∷ events) set = record_all events (check_and_record event_id set).1

abbrev is_accepted : Checked (Unit {0}) → ℕ
is_accepted (ok tt) = 1
is_accepted (err e) = 0

-- How often a list of deliveries is accepted for one event.
abbrev pub acceptances : ℕ → List ℕ → WebhookDeduplicator → ℕ
acceptances event [] set = 0
acceptances event (event_id ∷ events) set =
    (if event_id == event then is_accepted (check_and_record event_id set).0 else 0)
    + acceptances event events (check_and_record event_id set).1

-- How often it is delivered.
abbrev pub is_delivered : ℕ → List ℕ → Bool
is_delivered event [] = false
is_delivered event (event_id ∷ events) = (event_id == event) || is_delivered event events

abbrev count : Bool → ℕ
count true = 1
count false = 0

-- In any sequence of deliveries, whatever was seen before it, an event is accepted exactly once if it
-- is delivered at all and was not seen, and never otherwise.
pub acceptances_once :
    (event : ℕ) (events : List ℕ) (set : WebhookDeduplicator)
    → acceptances event events set
      ≡ (if contains event set then 0 else count (is_delivered event events))
unfolding check_and_record
acceptances_once event [] set = if_elim (λ n. 0 ≡ n) 0 0 (contains event set) refl refl
acceptances_once event (event_id ∷ events) set = elim (Bool-cases (contains event_id set)) [
  | inl seen ↦ elim (same_key event_id event) [
    | inl (e, hit, hit') ↦
        let known = subst (λ x. contains x set ≡ true) e seen in
        rw (seen, hit, known, acceptances_once event events set, known) refl
    | inr (miss, miss') ↦ rw (seen, miss) (omega (arith, acceptances_once event events set))
  ]
  | inr fresh ↦ elim (same_key event_id event) [
    | inl (e, hit, hit') ↦
        let unknown = subst (λ x. contains x set ≡ false) e fresh in
        rw (fresh, hit, unknown, acceptances_once event events (event_id ∷ set), hit') refl
    | inr (miss, miss') ↦
        rw (fresh, miss, acceptances_once event events (event_id ∷ set), miss') (omega arith)
  ]
]
