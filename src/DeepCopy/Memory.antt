-- ===== src/DeepCopy/Memory.antt =====
-- What api/v1alpha1/zz_generated.deepcopy.go takes from Go: values whose pointers, slices and maps
-- carry the address of what they refer to, and an allocator that hands out the next address.
use kafka_operator.Prelude.{ℕ, suc, String, List, [], ◌∷◌}
use kafka_operator.Prelude.Dict.{Dict}

-- a pointer, a slice or a map, which may be nil
pub data Pointer (A : Type 0) : Type 0 where
  nil : Pointer A
  at : (address : ℕ) (target : A) → Pointer A

-- The copy of a value from the next free address on, with the address that is then the next.
abbrev pub Copier : Type 0 → Type 0
Copier A = A → ℕ → A × ℕ

-- `*out = *in` of a type without pointers
abbrev pub plain : (A : Type 0) → Copier A
plain A x n = (x, n)

-- `*out = new(T)` or `make`, with the copy of what is referred to, where it is not nil
abbrev pub pointer : {A : Type 0} → Copier A → Copier (Pointer A)
pointer copy nil n = (nil, n)
pointer copy (at a x) n = let (y, m) = copy x (suc n) in (at n y, m)

-- the loop over the elements of a slice
abbrev pub elements : {A : Type 0} → Copier A → Copier (List A)
elements copy [] n = ([], n)
elements copy (x ∷ xs) n = let (y, m) = copy x n in let (ys, k) = elements copy xs m in (y ∷ ys, k)

-- one field after the other
abbrev pub both : {A B : Type 0} → Copier A → Copier B → Copier (A × B)
both copy copy' x n = let (y, m) = copy x.0 n in let (z, k) = copy' x.1 m in ((y, z), k)

-- some fields of a struct, read and written together
pub record Fields (A B : Type 0) : Type 0 where
  pub get : A → B
  pub put : A → B → A

-- `*out = *in`, and then the copies of some fields in their places
abbrev pub fields : {A B : Type 0} → Fields A B → Copier B → Copier A
fields f copy x n = let (y, m) = copy (f.get x) n in (f.put x y, m)

-- the loop over a map, whose entries are copied in the order of the list
abbrev pub entries : {V : Type 0} → Copier V → Copier (Dict V)
entries copy = elements (both (plain String) copy)
