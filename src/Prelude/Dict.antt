-- ===== src/Prelude/Dict.antt =====
-- Python's `dict`: entries in insertion order, one for each key. Assigning to a present key keeps
-- its place, and a new key goes to the end.
use mathlib.Core.Path.{◌≡◌, refl}
use mathlib.Core.Logic.{inl, inr}
use mathlib.Core.Bool.{Bool, false}
use mathlib.Core.Option.{Option, none, some}
use mathlib.Core.List.{List, [], ◌∷◌}
use native.Mathlib.Omega.{arith}
use Prim.Native.Nat.{◌+◌, ◌≤◌}
use goffy_os.Prelude.Tests.{if◌then◌else◌, Bool-cases, Option-cases, is_some}
use goffy_os.Prelude.Equality.{Eq, ◌==◌}
use goffy_os.Prelude.Lists.{length, contains}

abbrev pub Dict {ℓ κ} : Type ℓ → Type κ → Type (ℓ ⊔ κ)
Dict K V = List (K × V)

module _ {ℓ κ} {K : Type ℓ} {V : Type κ} ⦃e : Eq K⦄ where
  -- d.get(k)
  unfoldable pub get : Dict K V → K → Option V
  get [] k = none
  get ((j, v) ∷ d) k = if j == k then some v else get d k

  -- d[k] = v
  unfoldable pub put : Dict K V → K → V → Dict K V
  put [] k v = (k, v) ∷ []
  put ((j, w) ∷ d) k v = if j == k then (k, v) ∷ d else (j, w) ∷ put d k v

  -- d.pop(k, None)
  unfoldable pub remove : Dict K V → K → Dict K V
  remove [] k = []
  remove ((j, w) ∷ d) k = let rest = remove d k in if j == k then rest else (j, w) ∷ rest

  -- for k in ks: d.pop(k, None)
  unfoldable pub remove_all : Dict K V → List K → Dict K V
  remove_all d [] = d
  remove_all d (k ∷ ks) = remove_all (remove d k) ks

  -- [k for k, v in d.items() if p(v)]
  unfoldable pub keys_where : (V → Bool) → Dict K V → List K
  keys_where p [] = []
  keys_where p ((k, v) ∷ d) = let rest = keys_where p d in if p v then k ∷ rest else rest

  -- k in d
  abbrev pub has : Dict K V → K → Bool
  has d k = is_some (get d k)

  -- No key stands twice.
  abbrev pub IsDistinct : Dict K V → Type (ℓ ⊔ κ)
  IsDistinct [] = Unit
  IsDistinct ((k, v) ∷ d) = (get d k ≡ none) × IsDistinct d

  pub get-put :
      (d : Dict K V) (k j : K) (v : V) → get (put d k v) j ≡ (if k == j then some v else get d j)
  unfolding get put
  get-put [] k j v = refl
  get-put ((i, w) ∷ d) k j v =
      ground (arith, e.beq_iff i k, e.beq_iff k j, e.beq_iff i j, get-put d k j v)

  pub get-remove :
      (d : Dict K V) (k j : K) → get (remove d k) j ≡ (if k == j then none else get d j)
  unfolding get remove
  get-remove [] k j = ground arith
  get-remove ((i, w) ∷ d) k j =
      ground (arith, e.beq_iff i k, e.beq_iff k j, e.beq_iff i j, get-remove d k j)

  pub get-remove_all :
      (d : Dict K V) (ks : List K) (j : K)
      → get (remove_all d ks) j ≡ (if contains ks j then none else get d j)
  unfolding remove_all
  get-remove_all d [] j = refl
  get-remove_all d (k ∷ ks) j = ground (arith, get-remove_all (remove d k) ks j, get-remove d k j)

  pub contains-keys_where-absent :
      (p : V → Bool) (d : Dict K V) (j : K) → get d j ≡ none → contains (keys_where p d) j ≡ false
  unfolding get keys_where
  contains-keys_where-absent p [] j h = refl
  contains-keys_where-absent p ((i, w) ∷ d) j h = ground (arith, contains-keys_where-absent p d j)

  pub contains-keys_where :
      (p : V → Bool) (d : Dict K V) (j : K) (v : V)
      → IsDistinct d
      → get d j ≡ some v
      → contains (keys_where p d) j ≡ p v
  unfolding get keys_where
  contains-keys_where p [] j v u h = cc
  contains-keys_where p ((i, w) ∷ d) j v u h = elim (Bool-cases (i == j)) [
    | inl hit ↦ ground (arith, e.beq_iff i j, contains-keys_where-absent p d j)
    | inr miss ↦ ground (arith, contains-keys_where p d j v u.1)
  ]

  -- The entries that a test picks are gone, and the others stay.
  pub get-remove_where :
      (p : V → Bool) (d : Dict K V) (j : K)
      → IsDistinct d
      → get (remove_all d (keys_where p d)) j
        ≡ elim (get d j) [ none ↦ none | some v ↦ if p v then none else some v ]
  get-remove_where p d j u = elim (Option-cases (get d j)) [
    | inl h ↦ rw (get-remove_all, h) (ground (arith, contains-keys_where-absent p d j h))
    | inr (v, h) ↦ rw (get-remove_all, h) (ground (arith, contains-keys_where p d j v u h))
  ]

  pub put-IsDistinct : (d : Dict K V) (k : K) (v : V) → IsDistinct d → IsDistinct (put d k v)
  unfolding put
  put-IsDistinct [] k v u = (unfold get in refl, tt)
  put-IsDistinct ((i, w) ∷ d) k v u =
      ground (arith, e.beq_iff i k, e.beq_iff k i, get-put d k i v, put-IsDistinct d k v u.1)

  pub remove-IsDistinct : (d : Dict K V) (k : K) → IsDistinct d → IsDistinct (remove d k)
  unfolding remove
  remove-IsDistinct [] k u = tt
  remove-IsDistinct ((i, w) ∷ d) k u = ground (arith, get-remove d k i, remove-IsDistinct d k u.1)

  pub remove_all-IsDistinct :
      (d : Dict K V) (ks : List K) → IsDistinct d → IsDistinct (remove_all d ks)
  unfolding remove_all
  remove_all-IsDistinct d [] u = u
  remove_all-IsDistinct d (k ∷ ks) u =
      remove_all-IsDistinct (remove d k) ks (remove-IsDistinct d k u)

  pub length-put :
      (d : Dict K V) (k : K) (v : V)
      → length (put d k v) ≡ (if has d k then length d else length d + 1)
  unfolding get put
  length-put [] k v = omega arith
  length-put ((i, w) ∷ d) k v = ground (arith, length-put d k v)

  pub length-remove-le : (d : Dict K V) (k : K) → length (remove d k) ≤ length d
  unfolding remove
  length-remove-le [] k = omega arith
  length-remove-le ((i, w) ∷ d) k = ground (arith, length-remove-le d k)

  pub length-remove_all-le : (d : Dict K V) (ks : List K) → length (remove_all d ks) ≤ length d
  unfolding remove_all
  length-remove_all-le d [] = omega arith
  length-remove_all-le d (k ∷ ks) =
      omega (arith, length-remove_all-le (remove d k) ks, length-remove-le d k)

module _ {ℓ κ} {K : Type ℓ} {V : Type κ} where
  -- list(d)
  unfoldable pub keys : Dict K V → List K
  keys [] = []
  keys ((k, v) ∷ d) = k ∷ keys d

  -- dict.fromkeys(d, x)
  unfoldable pub from_keys {ι} : {W : Type ι} → Dict K V → W → Dict K W
  from_keys [] x = []
  from_keys ((k, v) ∷ d) x = (k, x) ∷ from_keys d x

module _ {ℓ κ} {K : Type ℓ} {V : Type κ} ⦃e : Eq K⦄ where
  pub contains-keys : (d : Dict K V) (k : K) → contains (keys d) k ≡ has d k
  unfolding keys get
  contains-keys [] k = refl
  contains-keys ((j, v) ∷ d) k = ground (arith, contains-keys d k)

  pub get-from_keys {ι} :
      {W : Type ι} (d : Dict K V) (x : W) (k : K)
      → get (from_keys d x) k ≡ (if has d k then some x else none)
  unfolding from_keys get
  get-from_keys [] x k = refl
  get-from_keys ((j, v) ∷ d) x k = elim (Bool-cases (j == k)) [
    | inl hit ↦ rw hit
    | inr miss ↦ rw miss (get-from_keys d x k)
  ]
