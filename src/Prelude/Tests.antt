-- ===== src/Prelude/Tests.antt =====
-- Boolean tests and the conditional. A Go string is set when it is not the empty string, and a
-- test of it stays shut, so that proofs split on it as on a plain Boolean.
use Prim.Native.Nat.{ℕ, compare, Ordering}
use Prim.Native.String.{String}
use mathlib.Core.Path.{◌≡◌, refl}
use mathlib.Core.Logic.{◌↔◌, ◌≢◌, ◌⊎◌, inl, inr}
use mathlib.Core.Bool.{Bool, true, false, not}
use mathlib.Core.Option.{Option, none, some}
use native.Mathlib.Omega.{arith}
use text.Mathlib.Text
use text.Mathlib.TextEquality.{eq_iff}
use text.Mathlib.TextPositions.{eq_refl}

abbrev pub ltb : ℕ → ℕ → Bool
ltb a b = elim (compare a b) [ Ordering.lt ↦ true | _ ↦ false ]

infix 1 if◌then◌else◌
abbrev pub if◌then◌else◌ {ℓ} : {A : Type ℓ} → Bool → A → A → A
if true then x else y = x
if false then x else y = y

infix 50 ◌==◌
unfoldable pub ◌==◌ : String → String → Bool
s == t = Text.◌==◌ s t

pub ==_iff : (s t : String) → ((s == t) ≡ true) ↔ (s ≡ t)
unfolding ◌==◌
==_iff s t = eq_iff s t

pub ==_refl : (s : String) → (s == s) ≡ true
unfolding ◌==◌
==_refl s = eq_refl s

-- `s != ""`
unfoldable pub is_set : String → Bool
unfolding ◌==◌
is_set s = not (s == "")

pub is_set_iff : (s : String) → (is_set s ≡ true) ↔ (s ≢ "")
unfolding is_set
is_set_iff s = ground (arith, eq_iff s "")

-- To split on a computed value and keep the equation.
pub Bool-cases : (b : Bool) → (b ≡ true) ⊎ (b ≡ false)
Bool-cases true = inl refl
Bool-cases false = inr refl

pub Option-cases {ℓ} : {A : Type ℓ} (o : Option A) → (o ≡ none) ⊎ ((a : A) × (o ≡ some a))
Option-cases none = inl refl
Option-cases (some a) = inr (a, refl)

pub ne_of_== : (s t : String) → (s == t) ≡ false → s ≢ t
ne_of_== s t h = ground (arith, ==_iff s t)
