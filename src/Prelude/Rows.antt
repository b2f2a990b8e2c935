-- ===== src/Prelude/Rows.antt =====
-- SQL tables as lists of rows: COUNT(*) with a condition, ORDER BY, and what they have to do with
-- the first row that fits.
use Prim.Native.Nat.{ℕ, suc, ◌≤◌}
use mathlib.Core.Path.{◌≡◌, refl}
use mathlib.Core.Bool.{Bool, true, ◌&&◌}
use mathlib.Core.Option.{none, some}
use mathlib.Core.List.{List, [], ◌∷◌, map}
use native.Mathlib.Omega.{arith}
use goffy_os.Prelude.Tests.{if◌then◌else◌}
use goffy_os.Prelude.Lists.{length, find, keep_if}

module _ {ℓ} {A : Type ℓ} where
  -- SELECT COUNT(*) … WHERE p
  abbrev pub count_if : (A → Bool) → List A → ℕ
  count_if p [] = 0
  count_if p (x ∷ xs) = let rest = count_if p xs in if p x then suc rest else rest

  abbrev insert_by : (A → A → Bool) → A → List A → List A
  insert_by le a [] = a ∷ []
  insert_by le a (b ∷ bs) = if le a b then a ∷ b ∷ bs else b ∷ insert_by le a bs

  -- ORDER BY le
  abbrev pub order_by : (A → A → Bool) → List A → List A
  order_by le [] = []
  order_by le (x ∷ xs) = insert_by le x (order_by le xs)

  pub count_if-le : (p : A → Bool) (xs : List A) → count_if p xs ≤ length xs
  count_if-le p [] = omega arith
  count_if-le p (x ∷ xs) = ground (arith, count_if-le p xs)

  pub find-none : (p : A → Bool) (xs : List A) → count_if p xs ≡ 0 → find p xs ≡ none
  find-none p [] h = refl
  find-none p (x ∷ xs) h = ground (arith, find-none p xs)

  pub find-some : (p : A → Bool) (xs : List A) (a : A) → find p xs ≡ some a → p a ≡ true
  find-some p [] a h = absurd (ground arith)
  find-some p (x ∷ xs) a h = ground (arith, find-some p xs a)

  count-insert_by :
      (le : A → A → Bool) (p : A → Bool) (a : A) (xs : List A)
      → count_if p (insert_by le a xs) ≡ count_if p (a ∷ xs)
  count-insert_by le p a [] = refl
  count-insert_by le p a (b ∷ bs) = ground (arith, count-insert_by le p a bs)

  pub count-order_by :
      (le : A → A → Bool) (p : A → Bool) (xs : List A) → count_if p (order_by le xs) ≡ count_if p xs
  count-order_by le p [] = refl
  count-order_by le p (x ∷ xs) =
      ground (arith, count-insert_by le p x (order_by le xs), count-order_by le p xs)

  find-insert_by :
      (le : A → A → Bool) (p : A → Bool) (a : A) (xs : List A)
      → count_if p (a ∷ xs) ≤ 1
      → find p (insert_by le a xs) ≡ find p (a ∷ xs)
  find-insert_by le p a [] h = refl
  find-insert_by le p a (b ∷ bs) h = ground (arith, find-insert_by le p a bs, find-none p bs)

  -- Where at most one row fits, the order does not matter.
  pub find-order_by :
      (le : A → A → Bool) (p : A → Bool) (xs : List A)
      → count_if p xs ≤ 1
      → find p (order_by le xs) ≡ find p xs
  find-order_by le p [] h = refl
  find-order_by le p (x ∷ xs) h =
      ground (
        arith,
        find-insert_by le p x (order_by le xs),
        count-order_by le p xs,
        find-order_by le p xs,
      )

  pub find-keep_if :
      (q p : A → Bool) (xs : List A) → find p (keep_if q xs) ≡ find (λ x. q x && p x) xs
  find-keep_if q p [] = refl
  find-keep_if q p (x ∷ xs) = ground (arith, find-keep_if q p xs)

  pub count-keep_if :
      (q p : A → Bool) (xs : List A) → count_if p (keep_if q xs) ≡ count_if (λ x. q x && p x) xs
  count-keep_if q p [] = refl
  count-keep_if q p (x ∷ xs) = ground (arith, count-keep_if q p xs)

  pub count-and-le : (q p : A → Bool) (xs : List A) → count_if (λ x. q x && p x) xs ≤ count_if p xs
  count-and-le q p [] = omega arith
  count-and-le q p (x ∷ xs) = ground (arith, count-and-le q p xs)

  pub length-order_by : (le : A → A → Bool) (xs : List A) → length (order_by le xs) ≡ length xs
  length-order_by le [] = refl
  length-order_by le (x ∷ xs) =
      ground (arith, length-insert_by x (order_by le xs), length-order_by le xs)
    where
      length-insert_by : (a : A) (ys : List A) → length (insert_by le a ys) ≡ suc (length ys)
      length-insert_by a [] = refl
      length-insert_by a (b ∷ bs) = ground (arith, length-insert_by a bs)

  -- Changing rows in a way that a condition does not see.
  pub count-map :
      (f : A → A) (p : A → Bool) (xs : List A)
      → ((x : A) → p (f x) ≡ p x)
      → count_if p (map f xs) ≡ count_if p xs
  count-map f p [] same = refl
  count-map f p (x ∷ xs) same = ground (arith, same x, count-map f p xs same)

  pub length-map : (f : A → A) (xs : List A) → length (map f xs) ≡ length xs
  length-map f [] = refl
  length-map f (x ∷ xs) = ground (arith, length-map f xs)
