-- ===== src/Prelude/Dict.antt =====
-- Go maps with string keys. A map that is not nil is an association list that `set` keeps free of
-- repeated keys; a map that may be nil is an `Option` of it. A `range` over a map visits the
-- entries in any order: the loop is a function of an enumeration of them.
use Prim.Native.String.{String}
use mathlib.Core.Path.{◌≡◌, refl, subst}
use mathlib.Core.Logic.{inl, inr}
use mathlib.Core.Bool.{Bool, true, false}
use mathlib.Core.Option.{Option, none, some}
use mathlib.Core.List.{List, [], ◌∷◌}
use native.Mathlib.Omega.{arith}
use kafka_operator.Prelude.Lists.{All}
use kafka_operator.Prelude.Tests.{◌==◌, ==_iff, ==_refl, if◌then◌else◌, Bool-cases}

abbrev pub Dict {ℓ} : Type ℓ → Type ℓ
Dict V = List (String × V)

module _ {ℓ} {V : Type ℓ} where
  unfoldable pub lookup : String → Dict V → Option V
  lookup k [] = none
  lookup k ((j, v) ∷ m) = if j == k then some v else lookup k m

  -- `m[k] = v`
  unfoldable pub set : String → V → Dict V → Dict V
  set k v [] = (k, v) ∷ []
  set k v ((j, w) ∷ m) = if j == k then (k, v) ∷ m else (j, w) ∷ set k v m

  -- `_, ok := m[k]`
  abbrev pub has : String → Dict V → Bool
  has k m = elim (lookup k m) [ none ↦ false | some _ ↦ true ]

  -- `m[k]` on a map that may be nil
  abbrev pub get? : String → Option (Dict V) → Option V
  get? k none = none
  get? k (some m) = lookup k m

  abbrev pub or_else : Option V → Option V → Option V
  or_else none o = o
  or_else (some v) o = some v

  -- `maps.Copy(dst, src)`, over an enumeration of `src`
  unfoldable pub copy : Dict V → Dict V → Dict V
  copy dst [] = dst
  copy dst ((k, v) ∷ src) = copy (set k v dst) src

  -- Every entry that `dst` lacks is set, over an enumeration of the defaults.
  unfoldable pub fill : Dict V → Dict V → Dict V
  fill dst [] = dst
  fill dst ((k, v) ∷ src) = fill (if has k dst then dst else set k v dst) src

  abbrev pub NodupKeys : Dict V → Type ℓ
  NodupKeys [] = Unit
  NodupKeys ((k, _) ∷ m) = (lookup k m ≡ none) × NodupKeys m

  -- The two are enumerations of one map.
  abbrev pub SameMap : Dict V → Dict V → Type ℓ
  SameMap m n = (k : String) → lookup k m ≡ lookup k n

module _ {ℓ} {V : Type ℓ} where
  pub lookup-set :
      (j k : String) (v : V) (m : Dict V)
      → lookup j (set k v m) ≡ (if k == j then some v else lookup j m)
  unfolding lookup set
  lookup-set j k v [] = refl
  lookup-set j k v ((i, w) ∷ m) =
      ground (arith, ==_iff k j, ==_iff i k, ==_iff i j, lookup-set j k v m)

  pub lookup-set_self : (k : String) (v : V) (m : Dict V) → lookup k (set k v m) ≡ some v
  lookup-set_self k v m = simp (lookup-set, ==_refl)

  pub set-NodupKeys : (k : String) (v : V) (m : Dict V) → NodupKeys m → NodupKeys (set k v m)
  unfolding set
  set-NodupKeys k v [] _ = (unfold lookup in refl, tt)
  set-NodupKeys k v ((j, w) ∷ m) (fresh, u) =
      ground (arith, set-NodupKeys k v m u, lookup-set j k v m, ==_iff j k, ==_iff k j)

  pub lookup-copy :
      (j : String) (dst src : Dict V)
      → NodupKeys src
      → lookup j (copy dst src) ≡ or_else (lookup j src) (lookup j dst)
  unfolding copy lookup
  lookup-copy j dst [] _ = refl
  lookup-copy j dst ((k, v) ∷ src) (fresh, u) =
      ground (arith, lookup-copy j (set k v dst) src u, lookup-set j k v dst, ==_iff k j)

  pub lookup-fill :
      (j : String) (dst src : Dict V)
      → NodupKeys src
      → lookup j (fill dst src) ≡ or_else (lookup j dst) (lookup j src)
  unfolding fill lookup
  lookup-fill j dst [] _ = ground arith
  lookup-fill j dst ((k, v) ∷ src) (fresh, u) = ground (
    arith,
    lookup-fill j dst src u,
    lookup-fill j (set k v dst) src u,
    lookup-set j k v dst,
    ==_iff k j,
  )

  pub copy-NodupKeys : (dst src : Dict V) → NodupKeys dst → NodupKeys (copy dst src)
  unfolding copy
  copy-NodupKeys dst [] u = u
  copy-NodupKeys dst ((k, v) ∷ src) u = copy-NodupKeys (set k v dst) src (set-NodupKeys k v dst u)

  pub fill-NodupKeys : (dst src : Dict V) → NodupKeys dst → NodupKeys (fill dst src)
  unfolding fill
  fill-NodupKeys dst [] u = u
  fill-NodupKeys dst ((k, v) ∷ src) u =
      ground (
        arith,
        fill-NodupKeys dst src u,
        fill-NodupKeys (set k v dst) src (set-NodupKeys k v dst u),
      )

module _ {ℓ κ} {V : Type ℓ} (P : String × V → Type κ) where
  -- What holds of all entries of a map holds of what is looked up.
  pub All-lookup : (m : Dict V) (k : String) (v : V) → All P m → lookup k m ≡ some v → P (k, v)
  unfolding lookup
  All-lookup [] k v h e = cc
  All-lookup ((j, w) ∷ m) k v (hj, h) e = elim (Bool-cases (j == k)) [
    | inl same ↦ subst P (ground (arith, ==_iff j k)) hj
    | inr other ↦ All-lookup m k v h (ground arith)
  ]

  -- What holds of all that is looked up holds of all entries, where no key is repeated.
  pub All-of_lookup :
      (m : Dict V) → NodupKeys m → ((k : String) (v : V) → lookup k m ≡ some v → P (k, v)) → All P m
  unfolding lookup
  All-of_lookup [] u h = tt
  All-of_lookup ((j, w) ∷ m) (fresh, u) h = (
    h j w (ground (arith, ==_refl j)),
    All-of_lookup m u (λ k v e. h k v (ground (arith, ==_iff j k))),
  )

-- A write of what is there already changes nothing.
pub set-lookup {ℓ} :
    {V : Type ℓ} (k : String) (v : V) (m : Dict V) → lookup k m ≡ some v → set k v m ≡ m
unfolding set lookup
set-lookup k v [] there = cc
set-lookup k v ((j, w) ∷ m) there = ground (arith, set-lookup k v m, ==_iff j k)

-- A write of what was just written changes nothing.
pub set_idem {ℓ} : {V : Type ℓ} (k : String) (v : V) (m : Dict V) → set k v (set k v m) ≡ set k v m
set_idem k v m = set-lookup k v (set k v m) (lookup-set_self k v m)
