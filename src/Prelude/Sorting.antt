-- ===== src/Prelude/Sorting.antt =====
-- `sorted(names)`: texts in the order of their code points, which is that of their bytes.
use Prim.Native.Nat.{suc}
use Prim.Native.String.{String, compare}
use mathlib.Core.Path.{◌≡◌, refl}
use mathlib.Core.Bool.{Bool, true, ◌||◌}
use mathlib.Core.List.{List, [], ◌∷◌}
use native.Mathlib.Omega.{arith}
use text.Mathlib.Text.{is_le}
use text.Mathlib.TextPositions.{compare_refl}
use goffy_os.Prelude.Tests.{if◌then◌else◌}
use goffy_os.Prelude.Equality.{◌==◌, string_eq}
use goffy_os.Prelude.Lists.{length, contains}

abbrev pub str_le : String → String → Bool
str_le a b = is_le (compare a b)

pub str_le_refl : (a : String) → str_le a a ≡ true
str_le_refl a = rw compare_refl

unfoldable pub insert_sorted : String → List String → List String
insert_sorted a [] = a ∷ []
insert_sorted a (b ∷ bs) = if str_le a b then a ∷ b ∷ bs else b ∷ insert_sorted a bs

unfoldable pub sorted : List String → List String
unfolding insert_sorted
sorted [] = []
sorted (a ∷ xs) = insert_sorted a (sorted xs)

contains-insert_sorted :
    (a j : String) (xs : List String) → contains (insert_sorted a xs) j ≡ (a == j || contains xs j)
unfolding insert_sorted
contains-insert_sorted a j [] = refl
contains-insert_sorted a j (b ∷ bs) = ground (arith, contains-insert_sorted a j bs)

-- Sorting keeps what is in the list.
pub contains-sorted : (xs : List String) (j : String) → contains (sorted xs) j ≡ contains xs j
unfolding sorted
contains-sorted [] j = refl
contains-sorted (a ∷ xs) j =
    ground (arith, contains-insert_sorted a j (sorted xs), contains-sorted xs j)

length-insert_sorted :
    (a : String) (xs : List String) → length (insert_sorted a xs) ≡ suc (length xs)
unfolding insert_sorted
length-insert_sorted a [] = refl
length-insert_sorted a (b ∷ bs) = ground (arith, length-insert_sorted a bs)

pub length-sorted : (xs : List String) → length (sorted xs) ≡ length xs
unfolding sorted
length-sorted [] = refl
length-sorted (a ∷ xs) = ground (arith, length-insert_sorted a (sorted xs), length-sorted xs)
