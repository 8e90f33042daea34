-- ===== src/Common/Lists.antt =====
-- Lists measured and indexed by native numbers, under the library's names.
use Prim.Native.Nat.{ℕ, zero, suc, ◌+◌, ◌-◌, ◌≤◌, min}
use mathlib.Core.Path.{◌≡◌, refl, ap, sym, ◌∙◌}
use mathlib.Core.List.{List, [], ◌∷◌, ◌++◌}
use mathlib.Core.Logic.{inl, inr}
use native.Mathlib.Omega.{arith}
use trust_ledger.Common.Tests.{ltb, ltb→lt, ltb→ge, Bool-cases}

module _ {ℓ} {A : Type ℓ} where
  abbrev pub length : List A → ℕ
  length [] = 0
  length (x ∷ xs) = suc (length xs)

  -- `Vec::truncate`.
  abbrev pub take : ℕ → List A → List A
  take zero xs = []
  take (suc n) [] = []
  take (suc n) (x ∷ xs) = x ∷ take n xs

  -- `xs[n..]`.
  abbrev pub drop : ℕ → List A → List A
  drop zero xs = xs
  drop (suc n) [] = []
  drop (suc n) (x ∷ xs) = drop n xs

  abbrev pub replicate : ℕ → A → List A
  replicate zero x = []
  replicate (suc n) x = x ∷ replicate n x

  pub length-append : (xs ys : List A) → length (xs ++ ys) ≡ length xs + length ys
  length-append [] ys = omega arith
  length-append (x ∷ xs) ys = omega (arith, length-append xs ys)

  pub take-append_length : (xs ys : List A) → take (length xs) (xs ++ ys) ≡ xs
  take-append_length [] ys = refl
  take-append_length (x ∷ xs) ys = ap (λ zs. x ∷ zs) (take-append_length xs ys)

  pub drop-append_length : (xs ys : List A) → drop (length xs) (xs ++ ys) ≡ ys
  drop-append_length [] ys = refl
  drop-append_length (x ∷ xs) ys = drop-append_length xs ys

  pub take-length : (xs : List A) → take (length xs) xs ≡ xs
  take-length [] = refl
  take-length (x ∷ xs) = ap (λ zs. x ∷ zs) (take-length xs)

  pub drop-length : (xs : List A) → drop (length xs) xs ≡ []
  drop-length [] = refl
  drop-length (x ∷ xs) = drop-length xs

  pub length-take : (n : ℕ) (xs : List A) → length (take n xs) ≡ min n (length xs)
  length-take zero xs = omega arith
  length-take (suc n) [] = omega arith
  length-take (suc n) (x ∷ xs) = omega (arith, length-take n xs)

  pub length-drop : (n : ℕ) (xs : List A) → length (drop n xs) ≡ length xs - n
  length-drop zero xs = omega arith
  length-drop (suc n) [] = omega arith
  length-drop (suc n) (x ∷ xs) = omega (arith, length-drop n xs)

  pub take-append-drop : (n : ℕ) (xs : List A) → take n xs ++ drop n xs ≡ xs
  take-append-drop zero xs = refl
  take-append-drop (suc n) [] = refl
  take-append-drop (suc n) (x ∷ xs) = ap (λ zs. x ∷ zs) (take-append-drop n xs)

  -- Reading in two parts is reading at once.
  pub take-append-take :
      (m n : ℕ) (xs : List A) → m ≤ n → take m xs ++ take (n - m) (drop m xs) ≡ take n xs
  take-append-take zero n xs h = ap (λ k. take k xs) (omega arith)
  take-append-take (suc m) zero xs h = elim h [ ]
  take-append-take (suc m) (suc n) [] h = take-nil (suc n - suc m)
    where
      take-nil : (k : ℕ) → take k [] ≡ []
      take-nil zero = refl
      take-nil (suc k) = refl
  take-append-take (suc m) (suc n) (x ∷ xs) h =
      ap (λ zs. x ∷ zs)
        (ap (λ k. take m xs ++ take k (drop m xs)) (omega arith)
          ∙ take-append-take m n xs (omega arith))

  pub drop-drop : (m n : ℕ) (xs : List A) → m ≤ n → drop (n - m) (drop m xs) ≡ drop n xs
  drop-drop zero n xs h = ap (λ k. drop k xs) (omega arith)
  drop-drop (suc m) zero xs h = elim h [ ]
  drop-drop (suc m) (suc n) [] h = drop-nil (suc n - suc m)
    where
      drop-nil : (k : ℕ) → drop k [] ≡ []
      drop-nil zero = refl
      drop-nil (suc k) = refl
  drop-drop (suc m) (suc n) (x ∷ xs) h =
      ap (λ k. drop k (drop m xs)) (omega arith) ∙ drop-drop m n xs (omega arith)

  -- The first elements of two lists.
  pub take-append_le : (n : ℕ) (xs ys : List A) → n ≤ length xs → take n (xs ++ ys) ≡ take n xs
  take-append_le zero xs ys h = refl
  take-append_le (suc n) [] ys h = elim h [ ]
  take-append_le (suc n) (x ∷ xs) ys h = ap (λ zs. x ∷ zs) (take-append_le n xs ys (omega arith))

  pub take-append_ge :
      (n : ℕ) (xs ys : List A) → length xs ≤ n → take n (xs ++ ys) ≡ xs ++ take (n - length xs) ys
  take-append_ge n [] ys h = ap (λ k. take k ys) (omega arith)
  take-append_ge zero (x ∷ xs) ys h = elim h [ ]
  take-append_ge (suc n) (x ∷ xs) ys h =
      ap (λ zs. x ∷ zs)
        (take-append_ge n xs ys (omega arith) ∙ ap (λ k. xs ++ take k ys) (omega arith))

  pub take_all : (n : ℕ) (xs : List A) → length xs ≤ n → take n xs ≡ xs
  take_all n [] h = elim n as (λ k. take k [] ≡ []) [ zero ↦ refl | suc k ↦ refl ]
  take_all zero (x ∷ xs) h = elim h [ ]
  take_all (suc n) (x ∷ xs) h = ap (λ zs. x ∷ zs) (take_all n xs (omega arith))

  -- The list that stands in front, by its length.
  pub take_exact : {n : ℕ} (xs ys : List A) → length xs ≡ n → take n (xs ++ ys) ≡ xs
  take_exact xs ys h = ap (λ k. take k (xs ++ ys)) (sym h) ∙ take-append_length xs ys

  pub drop_exact : {n : ℕ} (xs ys : List A) → length xs ≡ n → drop n (xs ++ ys) ≡ ys
  drop_exact xs ys h = ap (λ k. drop k (xs ++ ys)) (sym h) ∙ drop-append_length xs ys

  pub take-take : (m n : ℕ) (xs : List A) → m ≤ n → take m (take n xs) ≡ take m xs
  take-take zero n xs h = refl
  take-take (suc m) zero xs h = elim h [ ]
  take-take (suc m) (suc n) [] h = refl
  take-take (suc m) (suc n) (x ∷ xs) h = ap (λ zs. x ∷ zs) (take-take m n xs (omega arith))

  pub drop_all : (n : ℕ) (xs : List A) → length xs ≤ n → drop n xs ≡ []
  drop_all n [] h = elim n as (λ k. drop k [] ≡ []) [ zero ↦ refl | suc k ↦ refl ]
  drop_all zero (x ∷ xs) h = elim h [ ]
  drop_all (suc n) (x ∷ xs) h = drop_all n xs (omega arith)

  pub take_twice : (m n : ℕ) (xs : List A) → take m (take n xs) ≡ take (min m n) xs
  take_twice m n xs = elim (Bool-cases (ltb n m)) [
    | inl more ↦
        take_all m (take n xs) (omega (arith, length-take n xs, ltb→lt n m more))
        ∙ ap (λ k. take k xs) (omega (arith, ltb→lt n m more))
    | inr less ↦
        take-take m n xs (ltb→ge n m less) ∙ ap (λ k. take k xs) (omega (arith, ltb→ge n m less))
  ]
