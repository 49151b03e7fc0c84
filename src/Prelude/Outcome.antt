-- ===== src/Prelude/Outcome.antt =====
-- What a Go call ends in: a value, an error, or a panic such as a nil dereference or a write to a
-- nil map. An error is its message.
use Prim.Native.String.{String, ◌++◌}
use mathlib.Core.Path.{◌≡◌, refl}
use mathlib.Core.Logic.{◌⊎◌, inl, inr}
use mathlib.Core.Option.{Option, none, some}

pub data Result {ℓ} (A : Type ℓ) : Type ℓ where
  panic : Result A
  err : (message : String) → Result A
  ok : (value : A) → Result A

module _ {ℓ κ} {A : Type ℓ} {B : Type κ} where
  infixl 5 ◌>>=◌
  abbrev pub ◌>>=◌ : Result A → (A → Result B) → Result B
  panic >>= next = panic
  err message >>= next = err message
  ok value >>= next = next value

  -- A call that succeeds has steps that succeed.
  pub >>=-eq-ok :
      (first : Result A) (next : A → Result B) {result : B}
      → (first >>= next) ≡ ok result
      → (value : A) × (first ≡ ok value) × (next value ≡ ok result)
  >>=-eq-ok panic next found = cc
  >>=-eq-ok (err message) next found = cc
  >>=-eq-ok (ok value) next found = (value, refl, found)

-- `*p`, and a selector through a pointer
abbrev pub deref {ℓ} : {A : Type ℓ} → Option A → Result A
deref none = panic
deref (some a) = ok a

-- `fmt.Errorf("prefix: %w", err)`
abbrev pub wrap {ℓ} : {A : Type ℓ} → String → Result A → Result A
wrap prefix (ok a) = ok a
wrap prefix (err e) = err (prefix ++ ": " ++ e)
wrap prefix panic = panic

pub deref-eq-ok {ℓ} : {A : Type ℓ} (o : Option A) {a : A} → deref o ≡ ok a → o ≡ some a
deref-eq-ok none h = cc
deref-eq-ok (some b) h = cc

pub Result-ok_injective {ℓ} : {A : Type ℓ} {a b : A} → ok a ≡ ok b → a ≡ b
Result-ok_injective h = cc

pub Result-cases {ℓ} :
    {A : Type ℓ} (r : Result A)
    → (r ≡ panic) ⊎ ((e : String) × (r ≡ err e)) ⊎ ((a : A) × (r ≡ ok a))
Result-cases panic = inl refl
Result-cases (err e) = inr (inl (e, refl))
Result-cases (ok a) = inr (inr (a, refl))
