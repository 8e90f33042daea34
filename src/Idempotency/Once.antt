-- ===== src/Idempotency/Once.antt =====
-- What the guard promises about any sequence of its calls (apps/demo/src/idempotency.rs).
use Prim.Native.String.{String}
use trust_ledger.Common.{
  ℕ, ◌+◌, ◌≤◌, ◌≡◌, ◌≢◌, refl, sym, ap, ◌∙◌, false, Option, none, some, List, [], ◌∷◌, ◌==◌,
  ==-refl, ne→==, same_key, inl, inr, arith, if◌then◌else◌,
}
use trust_ledger.Idempotency.{
  Key, IdempotencyStatus, in_progress, completed, Acquired, ok, err, IdempotencyStore, new_store,
  acquire_at, try_acquire, complete, release_at, release_on_failure,
}

pub data Operation : Type 0 where
  acquiring : Key → Operation
  completing : Key → String → Operation
  releasing : Key → Operation

abbrev pub perform : Operation → IdempotencyStore → IdempotencyStore
perform (acquiring key) store = (try_acquire key store).1
perform (completing key json) store = complete key json store
perform (releasing key) store = release_on_failure key store

abbrev pub perform_all : List Operation → IdempotencyStore → IdempotencyStore
perform_all [] store = store
perform_all (operation ∷ operations) store = perform_all operations (perform operation store)

-- Whether an acquisition is granted, whether a release frees the key, and whether the key is taken.
abbrev is_granted : Acquired → ℕ
is_granted (ok none) = 1
is_granted (ok (some json)) = 0
is_granted (err e) = 0

abbrev frees : Option IdempotencyStatus → ℕ
frees (some in_progress) = 1
frees (some (completed json)) = 0
frees none = 0

abbrev is_taken : Option IdempotencyStatus → ℕ
is_taken none = 0
is_taken (some status) = 1

-- How often a run grants a key, and how often it frees it.
abbrev pub grant : Key → Operation → IdempotencyStore → ℕ
grant key (acquiring k) store = if k == key then is_granted (try_acquire k store).0 else 0
grant key (completing k json) store = 0
grant key (releasing k) store = 0

abbrev pub free : Key → Operation → IdempotencyStore → ℕ
free key (acquiring k) store = 0
free key (completing k json) store = 0
free key (releasing k) store = if k == key then frees (store k) else 0

abbrev pub grants : Key → List Operation → IdempotencyStore → ℕ
grants key [] store = 0
grants key (operation ∷ operations) store =
    grant key operation store + grants key operations (perform operation store)

abbrev pub releases : Key → List Operation → IdempotencyStore → ℕ
releases key [] store = 0
releases key (operation ∷ operations) store =
    free key operation store + releases key operations (perform operation store)

-- No call of a run completes a key.
pub data NotCompleted (key : Key) : List Operation → Type 0 where
  not_yet : NotCompleted key []
  acquired :
      (k : Key) (operations : List Operation)
      → NotCompleted key operations
      → NotCompleted key (acquiring k ∷ operations)
  released :
      (k : Key) (operations : List Operation)
      → NotCompleted key operations
      → NotCompleted key (releasing k ∷ operations)
  completed_other :
      (k : Key) (json : String) (operations : List Operation)
      → k ≢ key
      → NotCompleted key operations
      → NotCompleted key (completing k json ∷ operations)

is_not_none : {json : String} → none ≡ some (completed json) → ⊥
is_not_none h = cc

is_not_in_progress : {json : String} → some (completed json) ≡ some in_progress → ⊥
is_not_in_progress h = cc

acquire_call :
    (key k : Key) (store : IdempotencyStore) (status : Option IdempotencyStatus)
    → status ≡ store k
    → (if k == key then is_granted (acquire_at k store status).0 else 0) + is_taken (store key)
      ≤ is_taken ((acquire_at k store status).1 key)
acquire_call key k store none h = elim (same_key k key) [
  | inl (e, hit, hit') ↦
      let free : store key ≡ none = ap store (sym e) ∙ sym h in rw (hit, hit', free) (omega arith)
  | inr (miss, miss') ↦ rw (miss, miss') (omega arith)
]
acquire_call key k store (some in_progress) h = elim (same_key k key) [
  | inl (e, hit, hit') ↦ rw hit (omega arith)
  | inr (miss, miss') ↦ rw miss (omega arith)
]
acquire_call key k store (some (completed json)) h = elim (same_key k key) [
  | inl (e, hit, hit') ↦ rw hit (omega arith)
  | inr (miss, miss') ↦ rw miss (omega arith)
]

release_call :
    (key k : Key) (store : IdempotencyStore) (status : Option IdempotencyStatus)
    → status ≡ store k
    → is_taken (store key)
      ≤ (if k == key then frees status else 0) + is_taken (release_at k store status key)
release_call key k store none h = omega arith
release_call key k store (some (completed json)) h = omega arith
release_call key k store (some in_progress) h = elim (same_key k key) [
  | inl (e, hit, hit') ↦
      let taken : store key ≡ some in_progress = ap store (sym e) ∙ sym h in
      rw (hit, hit', taken) (omega arith)
  | inr (miss, miss') ↦ rw (miss, miss') (omega arith)
]

is_taken_le : (status : Option IdempotencyStatus) → is_taken status ≤ 1
is_taken_le none = omega arith
is_taken_le (some status) = omega arith

-- One call: a grant takes the key, and a key is freed by a release alone.
one_call :
    (key : Key) (operation : Operation) (store : IdempotencyStore)
    → grant key operation store + is_taken (store key)
      ≤ free key operation store + is_taken (perform operation store key)
unfolding try_acquire complete release_on_failure
one_call key (acquiring k) store = omega (arith, acquire_call key k store (store k) refl)
one_call key (completing k json) store = elim (same_key k key) [
  | inl (e, hit, hit') ↦ rw hit' (omega (arith, is_taken_le (store key)))
  | inr (miss, miss') ↦ rw miss' (omega arith)
]
one_call key (releasing k) store = omega (arith, release_call key k store (store k) refl)

all_calls :
    (key : Key) (operations : List Operation) (store : IdempotencyStore)
    → grants key operations store + is_taken (store key)
      ≤ releases key operations store + is_taken (perform_all operations store key)
all_calls key [] store = omega arith
all_calls key (operation ∷ operations) store =
    omega (arith, one_call key operation store, all_calls key operations (perform operation store))

-- In any run of the guard from an empty store, whatever its clients call in whatever order, an
-- operation is granted for a key at most once more often than a failure has freed the key.
pub perform_all-grants :
    (key : Key) (operations : List Operation)
    → grants key operations new_store ≤ releases key operations new_store + 1
perform_all-grants key operations =
    omega (
      arith,
      all_calls key operations new_store,
      is_taken_le (perform_all operations new_store key),
    )

-- A completed key is neither granted nor freed.
acquire_keeps :
    (key k : Key) (json : String) (store : IdempotencyStore) (status : Option IdempotencyStatus)
    → status ≡ store k
    → store key ≡ some (completed json)
    → (acquire_at k store status).1 key ≡ some (completed json)
acquire_keeps key k json store none h done = elim (same_key k key) [
  | inl (e, hit, hit') ↦ absurd (is_not_none (h ∙ ap store e ∙ done))
  | inr (miss, miss') ↦ rw miss' done
]
acquire_keeps key k json store (some in_progress) h done = done
acquire_keeps key k json store (some (completed other)) h done = done

release_keeps :
    (key k : Key) (json : String) (store : IdempotencyStore) (status : Option IdempotencyStatus)
    → status ≡ store k
    → store key ≡ some (completed json)
    → release_at k store status key ≡ some (completed json)
release_keeps key k json store none h done = done
release_keeps key k json store (some (completed other)) h done = done
release_keeps key k json store (some in_progress) h done = elim (same_key k key) [
  | inl (e, hit, hit') ↦ absurd (is_not_in_progress (sym done ∙ sym (ap store e) ∙ sym h))
  | inr (miss, miss') ↦ rw miss' done
]

run_keeps :
    (key : Key) (json : String) (operations : List Operation) (store : IdempotencyStore)
    → NotCompleted key operations
    → store key ≡ some (completed json)
    → perform_all operations store key ≡ some (completed json)
unfolding try_acquire complete release_on_failure
run_keeps key json [] store not_yet done = done
run_keeps key json (acquiring k ∷ operations) store (acquired _ _ h) done =
    run_keeps key json operations _ h (acquire_keeps key k json store (store k) refl done)
run_keeps key json (releasing k ∷ operations) store (released _ _ h) done =
    run_keeps key json operations _ h (release_keeps key k json store (store k) refl done)
run_keeps key json (completing k other ∷ operations) store (completed_other _ _ _ differs h) done =
    let miss : (key == k) ≡ false = ne→== key k (λ e. differs (sym e)) in
    run_keeps key json operations _ h (rw miss done)

-- Once a key is completed, every later request with it gets the stored response and none is granted,
-- whatever else happens, until the key is completed again.
pub try_acquire-complete :
    (key : Key) (json : String) (operations : List Operation) (store : IdempotencyStore)
    → NotCompleted key operations
    → (try_acquire key (perform_all operations (complete key json store))).0 ≡ ok (some json)
unfolding try_acquire complete
try_acquire-complete key json operations store h =
    let stays = run_keeps key json operations (complete key json store) h (rw (==-refl key) refl) in
    rw stays refl
