-- ===== src/Prelude/Maps.antt =====
-- `BTreeMap<String, V>` and `HashMap<String, V>`: the entries in the order of the map's iteration.
-- `insert` keeps the order of a `BTreeMap` by its keys, which is the order of their bytes.
use Prim.Native.Nat.{Ordering, ◌≤◌, ◌<◌}
use Prim.Native.String.{String, compare}
use mathlib.Core.Path.{◌≡◌, refl}
use mathlib.Core.Logic.{◌↔◌}
use mathlib.Core.Bool.{Bool, true, false}
use mathlib.Core.Option.{Option, none, some}
use mathlib.Core.List.{List, [], ◌∷◌}
use native.Mathlib.Omega.{arith}
use text.Mathlib.Text.{◌==◌}
use text.Mathlib.TextEquality.{eq_iff, path_by_compare}
use text.Mathlib.TextPositions.{compare_refl}
use cli_framework.Prelude.Tests.{if◌then◌else◌, is_some, or_else}
use cli_framework.Prelude.Lists.{length, contains, Distinct, All}

abbrev pub Map {ℓ} : Type ℓ → Type ℓ
Map V = List (String × V)

module _ {ℓ} {V : Type ℓ} where
  -- `map.get(key)`
  unfoldable pub lookup : String → Map V → Option V
  lookup wanted [] = none
  lookup wanted ((key, found) ∷ more) = if key == wanted then some found else lookup wanted more

  -- `map.insert(key, value)`
  unfoldable pub insert : String → V → Map V → Map V
  insert k v [] = (k, v) ∷ []
  insert k v ((j, w) ∷ m) =
      let rest = insert k v m in
      elim (compare k j) [
        | Ordering.lt ↦ (k, v) ∷ (j, w) ∷ m
        | Ordering.eq ↦ (k, v) ∷ m
        | Ordering.gt ↦ (j, w) ∷ rest
      ]

  -- `map.remove(key)`
  unfoldable pub remove : String → Map V → Map V
  remove k [] = []
  remove k ((j, w) ∷ m) = let rest = remove k m in if j == k then rest else (j, w) ∷ rest

  -- `map.contains_key(key)`
  abbrev pub contains_key : String → Map V → Bool
  contains_key k m = is_some (lookup k m)

  -- `map.keys()`
  abbrev pub keys : Map V → List String
  keys [] = []
  keys ((j, w) ∷ m) = j ∷ keys m

compare-eq_iff : (s t : String) → (compare s t ≡ Ordering.eq) ↔ (s ≡ t)
compare-eq_iff s t = (path_by_compare s t, λ e. rw e (compare_refl t))

module _ {ℓ} {V : Type ℓ} where
  pub lookup-insert :
      (key wanted : String) (new : V) (old : Map V)
      → lookup wanted (insert key new old) ≡ (if key == wanted then some new else lookup wanted old)
  unfolding lookup insert
  lookup-insert key wanted new [] = refl
  lookup-insert key wanted new ((other, found) ∷ old) = ground (
    arith,
    eq_iff key wanted,
    eq_iff other wanted,
    compare-eq_iff key other,
    lookup-insert key wanted new old,
  )

  pub lookup-remove :
      (k j : String) (m : Map V) → lookup j (remove k m) ≡ (if k == j then none else lookup j m)
  unfolding lookup remove
  lookup-remove k j [] = ground arith
  lookup-remove k j ((i, w) ∷ m) =
      ground (arith, eq_iff k j, eq_iff i j, eq_iff i k, lookup-remove k j m)

  still_there :
      (n : String) (names : List String) (m : Map V)
      → contains names n ≡ false
      → All (λ x. is_some (lookup x m) ≡ true) names
      → All (λ x. is_some (lookup x (remove n m)) ≡ true) names
  still_there n [] m fresh h = tt
  still_there n (x ∷ names) m fresh (found, h) = (
    ground (arith, lookup-remove n x m, eq_iff n x, eq_iff x n),
    still_there n names m (ground arith) h,
  )

  -- The entries of `m` are inserted in order.
  unfoldable pub insert_all : Map V → Map V → Map V
  insert_all [] acc = acc
  insert_all ((k, v) ∷ m) acc = insert_all m (insert k v acc)

  pub lookup-none : (k : String) (m : Map V) → contains (keys m) k ≡ false → lookup k m ≡ none
  unfolding lookup
  lookup-none k [] h = refl
  lookup-none k ((j, w) ∷ m) h = ground (arith, lookup-none k m)

  pub lookup-contains : (k : String) (m : Map V) → contains (keys m) k ≡ is_some (lookup k m)
  unfolding lookup
  lookup-contains k [] = refl
  lookup-contains k ((j, w) ∷ m) = ground (arith, lookup-contains k m)

  pub lookup-insert_all :
      (k : String) (m acc : Map V)
      → Distinct (keys m)
      → lookup k (insert_all m acc) ≡ or_else (lookup k m) (lookup k acc)
  unfolding insert_all lookup
  lookup-insert_all k [] acc h = refl
  lookup-insert_all k ((j, w) ∷ m) acc (fresh, h) = ground (
    arith,
    lookup-insert_all k m (insert j w acc) h,
    lookup-insert j k w acc,
    lookup-none j m fresh,
    eq_iff j k,
  )

  pub length-remove : (k : String) (m : Map V) → length (remove k m) ≤ length m
  unfolding remove
  length-remove k [] = omega arith
  length-remove k ((j, w) ∷ m) = ground (arith, length-remove k m)

  pub length-remove-lt :
      (k : String) (m : Map V) → is_some (lookup k m) ≡ true → length (remove k m) < length m
  unfolding remove lookup
  length-remove-lt k [] h = cc
  length-remove-lt k ((j, w) ∷ m) h = ground (arith, length-remove k m, length-remove-lt k m)

  -- No more distinct names have an entry than there are entries.
  pub length-le_of_entries :
      (names : List String) (m : Map V)
      → Distinct names
      → All (λ n. is_some (lookup n m) ≡ true) names
      → length names ≤ length m
  length-le_of_entries [] m d h = omega arith
  length-le_of_entries (n ∷ names) m (fresh, d) (found, h) = omega (
    arith,
    length-remove-lt n m found,
    length-le_of_entries names (remove n m) d (still_there n names m fresh h),
  )

-- `insert` on the keys alone.
unfoldable pub insert_key : String → List String → List String
insert_key k [] = k ∷ []
insert_key k (j ∷ names) =
    let rest = insert_key k names in
    elim (compare k j) [
      | Ordering.lt ↦ k ∷ j ∷ names
      | Ordering.eq ↦ k ∷ names
      | Ordering.gt ↦ j ∷ rest
    ]

pub keys-insert {ℓ} :
    {V : Type ℓ} (k : String) (v : V) (m : Map V) → keys (insert k v m) ≡ insert_key k (keys m)
unfolding insert insert_key
keys-insert k v [] = refl
keys-insert k v ((j, w) ∷ m) = ground (arith, keys-insert k v m)

pub ruleset entry_laws = (lookup-insert, lookup-remove)
