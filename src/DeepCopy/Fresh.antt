-- ===== src/DeepCopy/Fresh.antt =====
-- api/v1alpha1/zz_generated.deepcopy.go: a deep copy equals its original and shares nothing with it.
use kafka_operator.Prelude.{
  ℕ, suc, ◌≤◌, ◌<◌, String, List, [], ◌∷◌, ◌++◌, ◌≡◌, ◌≢◌, refl, ap, arith, ◌∙◌,
}
use kafka_operator.Prelude.Lists.{All, All-append, All-map}
use kafka_operator.DeepCopy.Layout.{Layout, dict_of, flat, list_of, pair_of, pointer_to}
use kafka_operator.DeepCopy.Memory.{
  Copier, Pointer, at, both, elements, entries, Fields, fields, nil, plain, pointer,
}

-- An address that was handed out between two states of the allocator.
abbrev pub IsBetween : ℕ → ℕ → ℕ → Type 0
IsBetween n m a = (n ≤ a) × (a < m)

-- Two lists have no address in common.
abbrev pub AreApart : List ℕ → List ℕ → Type 0
AreApart xs ys = All (λ a. All (λ b. a ≢ b) ys) xs

abbrev pub AreDistinct : List ℕ → Type 0
AreDistinct [] = Unit
AreDistinct (x ∷ xs) = All (λ b. x ≢ b) xs × AreDistinct xs

AreDistinct-append :
    (xs ys : List ℕ) → AreDistinct xs → AreDistinct ys → AreApart xs ys → AreDistinct (xs ++ ys)
AreDistinct-append [] ys _ once _ = once
AreDistinct-append (x ∷ xs) ys (new, once) once' (away, apart) =
    (All-append _ xs ys new away, AreDistinct-append xs ys once once' apart)

-- Addresses of different stretches of the allocator differ.
pub AreApart-between :
    (n m m' k : ℕ) (xs ys : List ℕ)
    → m ≤ m'
    → All (IsBetween n m) xs
    → All (IsBetween m' k) ys
    → AreApart xs ys
AreApart-between n m m' k xs ys ordered low high =
    All-map {P = IsBetween n m} {Q = λ a. All (λ b. a ≢ b) ys}
      (λ a below.
        All-map {P = IsBetween m' k} {Q = λ b. a ≢ b}
          (λ b above same.
            let (_, under) = below in
            let (over, _) = above in omega (arith, under, over, ordered, same))
          ys high)
      xs low

-- The copy, its addresses forgotten, is the original, and every address in it is a new one, which
-- only one of its parts has.
pub record IsDeep {A : Type 0} (l : Layout A) (c : Copier A) : Type 0 where
  pub grows : (x : A) (n : ℕ) → n ≤ (c x n).1
  pub same : (x : A) (n : ℕ) → l.erase (c x n).0 ≡ l.erase x
  pub fresh : (x : A) (n : ℕ) → All (IsBetween n (c x n).1) (l.addresses (c x n).0)
  pub once : (x : A) (n : ℕ) → AreDistinct (l.addresses (c x n).0)

pub plain-IsDeep : (A : Type 0) → IsDeep (flat A) (plain A)
plain-IsDeep A = record {
  grows = λ x n. omega arith;
  same = λ x n. refl;
  fresh = λ x n. tt;
  once = λ x n. tt;
}

widen :
    (n n' m m' : ℕ) (given : List ℕ)
    → n' ≤ n
    → m ≤ m'
    → All (IsBetween n m) given
    → All (IsBetween n' m') given
widen n n' m m' given low high =
    All-map {P = IsBetween n m} {Q = IsBetween n' m'}
      (λ a between. (let (l, h) = between in omega arith, let (l, h) = between in omega arith))
      given

module _ {A : Type 0} (l : Layout A) (c : Copier A) (deep : IsDeep l c) where
  pub pointer-IsDeep : IsDeep (pointer_to l) (pointer c)
  pointer-IsDeep = record { grows = grows'; same = same'; fresh = fresh'; once = once' }
    where
      grows' : (p : Pointer A) (n : ℕ) → n ≤ (pointer c p n).1
      grows' nil n = omega arith
      grows' (at a x) n = omega (arith, deep.grows x (suc n))

      same' :
          (p : Pointer A) (n : ℕ) → (pointer_to l).erase (pointer c p n).0 ≡ (pointer_to l).erase p
      same' nil n = refl
      same' (at a x) n = ap (at 0) (deep.same x (suc n))

      fresh' :
          (p : Pointer A) (n : ℕ)
          → All (IsBetween n (pointer c p n).1) ((pointer_to l).addresses (pointer c p n).0)
      fresh' nil n = tt
      fresh' (at a x) n = (
        (omega arith, omega (arith, deep.grows x (suc n))),
        widen (suc n) n _ _ _ (omega arith) (omega arith) (deep.fresh x (suc n)),
      )

      once' : (p : Pointer A) (n : ℕ) → AreDistinct ((pointer_to l).addresses (pointer c p n).0)
      once' nil n = tt
      once' (at a x) n =
          let (away, _) =
            AreApart-between n (suc n) (suc n) _ (n ∷ []) _ (omega arith)
              ((omega arith, omega arith), tt) (deep.fresh x (suc n)) in
          (away, deep.once x (suc n))

  pub elements-IsDeep : IsDeep (list_of l) (elements c)
  elements-IsDeep = record { grows = grows'; same = same'; fresh = fresh'; once = once' }
    where
      grows' : (xs : List A) (n : ℕ) → n ≤ (elements c xs n).1
      grows' [] n = omega arith
      grows' (x ∷ xs) n = omega (arith, deep.grows x n, grows' xs (c x n).1)

      same' : (xs : List A) (n : ℕ) → (list_of l).erase (elements c xs n).0 ≡ (list_of l).erase xs
      same' [] n = refl
      same' (x ∷ xs) n = rw (deep.same x n, same' xs (c x n).1) refl

      fresh' :
          (xs : List A) (n : ℕ)
          → All (IsBetween n (elements c xs n).1) ((list_of l).addresses (elements c xs n).0)
      fresh' [] n = tt
      fresh' (x ∷ xs) n =
          All-append _ _ _ (widen n n _ _ _ (omega arith) (grows' xs (c x n).1) (deep.fresh x n))
            (widen (c x n).1 n _ _ _ (deep.grows x n) (omega arith) (fresh' xs (c x n).1))

      once' : (xs : List A) (n : ℕ) → AreDistinct ((list_of l).addresses (elements c xs n).0)
      once' [] n = tt
      once' (x ∷ xs) n =
          AreDistinct-append _ _ (deep.once x n) (once' xs (c x n).1)
            (AreApart-between n _ _ _ _ _ (omega arith) (deep.fresh x n) (fresh' xs (c x n).1))

module _ {A B : Type 0} (l : Layout A) (l' : Layout B) (c : Copier A) (d : Copier B)
    (deep : IsDeep l c) (deep' : IsDeep l' d) where
  pub both-IsDeep : IsDeep (pair_of l l') (both c d)
  both-IsDeep = record {
    grows = λ x n. omega (arith, deep.grows x.0 n, deep'.grows x.1 (c x.0 n).1);
    same = λ x n. rw (deep.same x.0 n, deep'.same x.1 (c x.0 n).1) refl;
    fresh = λ x n.
        All-append _ _ _
          (widen n n _ _ _ (omega arith) (deep'.grows x.1 (c x.0 n).1) (deep.fresh x.0 n))
          (widen (c x.0 n).1 n _ _ _ (deep.grows x.0 n) (omega arith)
            (deep'.fresh x.1 (c x.0 n).1));
    once = λ x n. AreDistinct-append _ _ (deep.once x.0 n) (deep'.once x.1 (c x.0 n).1) (
        AreApart-between n _ _ _ _ _ (omega arith) (deep.fresh x.0 n)
          (deep'.fresh x.1 (c x.0 n).1));
  }

-- Fields that are read are the ones written last, and the struct's layout is that of these fields.
pub fields-IsDeep :
    {A B : Type 0} (f : Fields A B) (l : Layout A) (l' : Layout B) (c : Copier B)
    → ((x : A) (y : B) → f.get (f.put x y) ≡ y)
    → ((x : A) (y : B) → l.erase (f.put x y) ≡ f.put x (l'.erase y))
    → ((x : A) → f.put x (l'.erase (f.get x)) ≡ l.erase x)
    → ((x : A) → l.addresses x ≡ l'.addresses (f.get x))
    → IsDeep l' c
    → IsDeep l (fields f c)
fields-IsDeep f l l' c read erased kept reached deep = record {
  grows = λ x n. deep.grows (f.get x) n;
  same = λ x n. erased x (c (f.get x) n).0 ∙ ap (f.put x) (deep.same (f.get x) n) ∙ kept x;
  fresh = λ x n.
      rw (reached (f.put x (c (f.get x) n).0), read x (c (f.get x) n).0) (deep.fresh (f.get x) n);
  once = λ x n.
      rw (reached (f.put x (c (f.get x) n).0), read x (c (f.get x) n).0) (deep.once (f.get x) n);
}

pub entries-IsDeep :
    {V : Type 0} (l : Layout V) (c : Copier V) → IsDeep l c → IsDeep (dict_of l) (entries c)
entries-IsDeep l c deep =
    elements-IsDeep _ _ (both-IsDeep (flat String) l (plain String) c (plain-IsDeep String) deep)
