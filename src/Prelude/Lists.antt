-- ===== src/Prelude/Lists.antt =====
-- Lists measured by native numbers, and membership as a Boolean test.
use Prim.Native.Nat.{ℕ, zero, suc, ◌+◌, ◌-◌, ◌≤◌}
use mathlib.Core.Path.{◌≡◌, refl, ap, sym, ◌∙◌}
use mathlib.Core.Bool.{Bool, false, ◌||◌}
use mathlib.Core.Option.{Option, none, some}
use mathlib.Core.List.{List, [], ◌∷◌, ◌++◌, reverse, reverse-append}
use native.Mathlib.Omega.{arith}
use goffy_os.Prelude.Equality.{Eq, ◌==◌}
use goffy_os.Prelude.Tests.{if◌then◌else◌, ltb}
use native.Mathlib.Decide.{dec_lt}

module _ {ℓ} {A : Type ℓ} where
  abbrev pub length : List A → ℕ
  length [] = 0
  length (x ∷ xs) = suc (length xs)

  abbrev pub take : ℕ → List A → List A
  take zero xs = []
  take (suc n) [] = []
  take (suc n) (x ∷ xs) = x ∷ take n xs

  abbrev pub drop : ℕ → List A → List A
  drop zero xs = xs
  drop (suc n) [] = []
  drop (suc n) (x ∷ xs) = drop n xs

  abbrev pub get_elem? : List A → ℕ → Option A
  get_elem? [] i = none
  get_elem? (x ∷ xs) zero = some x
  get_elem? (x ∷ xs) (suc i) = get_elem? xs i

  -- `next((x for x in xs if p(x)), None)`
  abbrev pub find : (A → Bool) → List A → Option A
  find p [] = none
  find p (x ∷ xs) = if p x then some x else find p xs

  -- `[x for x in xs if p(x)]`
  abbrev pub keep_if : (A → Bool) → List A → List A
  keep_if p [] = []
  keep_if p (x ∷ xs) = let rest = keep_if p xs in if p x then x ∷ rest else rest

  -- `xs[-1] if xs else None`
  abbrev pub last? : List A → Option A
  last? [] = none
  last? (x ∷ []) = some x
  last? (x ∷ y ∷ ys) = last? (y ∷ ys)

  abbrev pub replicate : ℕ → A → List A
  replicate zero a = []
  replicate (suc n) a = a ∷ replicate n a

  pub length-append : (xs ys : List A) → length (xs ++ ys) ≡ length xs + length ys
  length-append [] ys = omega arith
  length-append (x ∷ xs) ys = omega (arith, length-append xs ys)

  pub length-drop : (n : ℕ) (xs : List A) → length (drop n xs) ≡ length xs - n
  length-drop zero xs = omega arith
  length-drop (suc n) [] = omega arith
  length-drop (suc n) (x ∷ xs) = omega (arith, length-drop n xs)

  pub length-take-le : (n : ℕ) (xs : List A) → length (take n xs) ≤ n
  length-take-le zero xs = omega arith
  length-take-le (suc n) [] = omega arith
  length-take-le (suc n) (x ∷ xs) = omega (arith, length-take-le n xs)

  pub drop-nil : (n : ℕ) → drop n [] ≡ []
  drop-nil zero = refl
  drop-nil (suc n) = refl

  -- xs[-n:]
  abbrev pub newest : ℕ → List A → List A
  newest n xs = drop (length xs - n) xs

  pub drop-append : (n : ℕ) (xs ys : List A) → n ≤ length xs → drop n (xs ++ ys) ≡ drop n xs ++ ys
  drop-append zero xs ys h = refl
  drop-append (suc n) [] ys h = absurd (omega arith)
  drop-append (suc n) (x ∷ xs) ys h = drop-append n xs ys (omega arith)

  pub newest-cons :
      (n : ℕ) (x : A) (xs : List A)
      → newest n (x ∷ xs) ≡ (if ltb n (suc (length xs)) then newest n xs else x ∷ xs)
  newest-cons n x xs = elim (dec_lt n (suc (length xs))) [
    | yes more ↦
        let one : suc (length xs) - n ≡ suc (length xs - n) = omega (arith, more) in
        rw one (ground arith)
    | no fits ↦
        let none_dropped : suc (length xs) - n ≡ 0 = omega (arith, fits) in
        rw none_dropped (ground arith)
  ]

  take-append_le : (n : ℕ) (xs ys : List A) → n ≤ length xs → take n (xs ++ ys) ≡ take n xs
  take-append_le zero xs ys h = refl
  take-append_le (suc n) [] ys h = absurd (omega arith)
  take-append_le (suc n) (x ∷ xs) ys h =
      ap (λ (es : List A). x ∷ es) (take-append_le n xs ys (omega arith))

  take_all : (n : ℕ) (xs : List A) → length xs ≤ n → take n xs ≡ xs
  take_all zero [] h = refl
  take_all zero (x ∷ xs) h = absurd (omega arith)
  take_all (suc n) [] h = refl
  take_all (suc n) (x ∷ xs) h = ap (λ (es : List A). x ∷ es) (take_all n xs (omega arith))

  pub length-reverse : (xs : List A) → length (reverse xs) ≡ length xs
  length-reverse [] = refl
  length-reverse (x ∷ xs) =
      ap length (reverse-append (x ∷ []) xs)
      ∙ omega (arith, length-append (reverse xs) (x ∷ []), length-reverse xs)

  -- reversed(xs[-n:])
  pub reverse-newest : (n : ℕ) (xs : List A) → reverse (newest n xs) ≡ take n (reverse xs)
  reverse-newest zero [] = refl
  reverse-newest (suc n) [] = ap reverse (drop-nil (0 - suc n))
  reverse-newest n (x ∷ xs) = elim (dec_lt n (suc (length xs))) [
    | yes more ↦
        let fewer : suc (length xs) - n ≡ suc (length xs - n) = omega (arith, more) in
        rw fewer (reverse-newest n xs)
        ∙ sym (take-append_le n (reverse xs) (x ∷ []) (omega (arith, more, length-reverse xs)))
        ∙ ap (take n) (sym (reverse-append (x ∷ []) xs))
    | no fits ↦
        let whole : suc (length xs) - n ≡ 0 = omega (arith, fits) in
        rw whole
          (sym (take_all n (reverse (x ∷ xs)) (omega (arith, fits, length-reverse (x ∷ xs)))))
  ]

  pub length-keep_if-le : (p : A → Bool) (xs : List A) → length (keep_if p xs) ≤ length xs
  length-keep_if-le p [] = omega arith
  length-keep_if-le p (x ∷ xs) = ground (arith, length-keep_if-le p xs)

module _ {ℓ} {A : Type ℓ} ⦃e : Eq A⦄ where
  abbrev pub contains : List A → A → Bool
  contains [] a = false
  contains (x ∷ xs) a = x == a || contains xs a

module _ {ℓ κ} {A : Type ℓ} (P : A → Type κ) where
  -- Every element satisfies `P`.
  abbrev pub All : List A → Type κ
  All [] = Unit
  All (x ∷ xs) = P x × All xs

  pub All-append : (xs ys : List A) → All xs → All ys → All (xs ++ ys)
  All-append [] ys p q = q
  All-append (x ∷ xs) ys p q = (p.0, All-append xs ys p.1 q)

module _ {A : Type 0} where
  -- What was dropped before does not matter later.
  pub newest-append :
      (n : ℕ) (xs : List A) (y : A) → newest n (newest n xs ++ y ∷ []) ≡ newest n (xs ++ y ∷ [])
  newest-append n [] y = ap (λ (es : List A). newest n (es ++ y ∷ [])) (drop-nil (0 - n))
  newest-append n (x ∷ xs) y = ground (
    arith,
    newest-cons n x xs,
    newest-cons n x (xs ++ y ∷ []),
    newest-append n xs y,
    length-append xs (y ∷ []),
  )
