-- ===== src/Prelude/Map.antt =====
-- `DashMap` and `HashMap` as association lists. `insert` puts a new entry in place of an old one,
-- and `retain` filters; the program never relies on the order of a map.
use tunnelbridge.Prelude.Tests.{Eq, ◌==◌, if◌then◌else◌}
use mathlib.Core.Path.{◌≡◌}
use mathlib.Core.Bool.{Bool, true, false}
use mathlib.Core.Option.{Option, none, some}
use mathlib.Core.List.{List, [], ◌∷◌}
use native.Mathlib.Omega.{arith}

abbrev pub Map {ℓ κ} : Type ℓ → Type κ → Type (ℓ ⊔ κ)
Map K V = List (K × V)

-- `Option::is_some`.
abbrev pub is_some {ℓ} : {A : Type ℓ} → Option A → Bool
is_some none = false
is_some (some a) = true

module _ {ℓ κ} {K : Type ℓ} {V : Type κ} ⦃e : Eq K⦄ where
  unfoldable pub get : Map K V → K → Option V
  get [] k = none
  get ((j, v) ∷ m) k = if j == k then some v else get m k

  unfoldable pub remove : Map K V → K → Map K V
  remove [] k = []
  remove ((j, v) ∷ m) k = let rest = remove m k in if j == k then rest else (j, v) ∷ rest

  unfoldable pub insert : Map K V → K → V → Map K V
  unfolding remove
  insert m k v = (k, v) ∷ remove m k

  unfoldable pub contains_key : Map K V → K → Bool
  unfolding get
  contains_key m k = is_some (get m k)

  pub get-remove : (m : Map K V) (k j : K) → get (remove m k) j ≡ (if k == j then none else get m j)
  unfolding get remove
  get-remove [] k j = ground arith
  get-remove ((i, v) ∷ m) k j =
      ground (arith, get-remove m k j, e.beq_iff i k, e.beq_iff i j, e.beq_iff k j)

  pub get-insert :
      (m : Map K V) (k j : K) (v : V) → get (insert m k v) j ≡ (if k == j then some v else get m j)
  unfolding get insert
  get-insert m k j v = ground (arith, get-remove m k j)

module _ {ℓ κ} {K : Type ℓ} {V : Type κ} ⦃e : Eq K⦄ where
  pub contains_key-remove :
      (m : Map K V) (k j : K)
      → contains_key (remove m k) j ≡ (if k == j then false else contains_key m j)
  unfolding contains_key
  contains_key-remove m k j = ground (arith, get-remove m k j)

  pub contains_key-insert :
      (m : Map K V) (k j : K) (v : V)
      → contains_key (insert m k v) j ≡ (if k == j then true else contains_key m j)
  unfolding contains_key
  contains_key-insert m k j v = ground (arith, get-insert m k j v)

  pub contains_key_of_get :
      (m : Map K V) (k : K) (v : V) → get m k ≡ some v → contains_key m k ≡ true
  unfolding contains_key
  contains_key_of_get m k v h = rw h

  pub not_contains_key : (m : Map K V) (k : K) → get m k ≡ none → contains_key m k ≡ false
  unfolding contains_key
  not_contains_key m k h = rw h

module _ {ℓ κ} {K : Type ℓ} {V : Type κ} ⦃e : Eq K⦄ where
  -- `DashMap::retain`: every entry is kept or dropped by its own test.
  pub retain : (K → V → Bool) → Map K V → Map K V
  retain p [] = []
  retain p ((j, v) ∷ m) = let rest = retain p m in if p j v then (j, v) ∷ rest else rest

  pub contains_key-retain :
      (p : K → V → Bool) (m : Map K V) (k : K)
      → contains_key (retain p m) k ≡ true
      → contains_key m k ≡ true
  unfolding contains_key get retain
  contains_key-retain p [] k h = h
  contains_key-retain p ((j, v) ∷ m) k h = ground (arith, contains_key-retain p m k)
