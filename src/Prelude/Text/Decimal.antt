-- ===== src/Prelude/Text/Decimal.antt =====
-- `strconv.Itoa` and `%d`, and that the digits spell the number.
use Prim.Native.Nat.{ℕ, zero, suc, ◌+◌, ◌*◌, ◌/◌, ◌%◌, ◌-◌, ◌<◌}
use Prim.Native.Char.{code}
use Prim.Native.String.{String, ◌++◌ as ◌<>◌}
use mathlib.Core.Path.{◌≡◌, refl, ◌∙◌, ap}
use native.Mathlib.Omega.{arith}
use text.Mathlib.TextLemmas.{nil-append, cons-append}
use kafka_operator.Prelude.Tests.{ltb, if◌then◌else◌, Bool-cases}
use mathlib.Core.Bool.{true}
use kafka_operator.Prelude.Text.Join.{lacks, lacks-append}
use kafka_operator.Prelude.Int.{ℤ, pos, negsuc}
use mathlib.Core.Logic.{inl, inr}

abbrev digit : ℕ → String
digit zero = "0"
digit (suc zero) = "1"
digit (suc (suc zero)) = "2"
digit (suc (suc (suc zero))) = "3"
digit (suc (suc (suc (suc zero)))) = "4"
digit (suc (suc (suc (suc (suc zero))))) = "5"
digit (suc (suc (suc (suc (suc (suc zero)))))) = "6"
digit (suc (suc (suc (suc (suc (suc (suc zero))))))) = "7"
digit (suc (suc (suc (suc (suc (suc (suc (suc zero)))))))) = "8"
digit (suc (suc (suc (suc (suc (suc (suc (suc (suc n))))))))) = "9"

-- The fuel is one more than the number, which falls in each round.
digits : ℕ → ℕ → String → String
digits zero n out = out
digits (suc f) n out =
    let rest = digits f (n / 10) (digit (n % 10) <> out) in
    if ltb n 10 then digit n <> out else rest

unfoldable pub itoa : ℕ → String
unfolding digits
itoa n = digits (suc n) n ""

unfoldable pub itoa_int : ℤ → String
unfolding itoa
itoa_int (pos n) = itoa n
itoa_int (negsuc n) = "-" <> itoa (suc n)

-- The number that a text of digits spells.
pub read : ℕ → String → ℕ
read n String.[] = n
read n (String.◌∷◌ c s) = read (n * 10 + (code c - b'0')) s

read-digit : (d acc : ℕ) (s : String) → d < 10 → read acc (digit d <> s) ≡ read (acc * 10 + d) s
unfolding read
read-digit zero acc s h = rw (cons-append, nil-append) refl
read-digit (suc zero) acc s h = rw (cons-append, nil-append) refl
read-digit (suc (suc zero)) acc s h = rw (cons-append, nil-append) refl
read-digit (suc (suc (suc zero))) acc s h = rw (cons-append, nil-append) refl
read-digit (suc (suc (suc (suc zero)))) acc s h = rw (cons-append, nil-append) refl
read-digit (suc (suc (suc (suc (suc zero))))) acc s h = rw (cons-append, nil-append) refl
read-digit (suc (suc (suc (suc (suc (suc zero)))))) acc s h = rw (cons-append, nil-append) refl
read-digit (suc (suc (suc (suc (suc (suc (suc zero))))))) acc s h =
    rw (cons-append, nil-append) refl
read-digit (suc (suc (suc (suc (suc (suc (suc (suc zero)))))))) acc s h =
    rw (cons-append, nil-append) refl
read-digit (suc (suc (suc (suc (suc (suc (suc (suc (suc zero))))))))) acc s h =
    rw (cons-append, nil-append) refl
read-digit (suc (suc (suc (suc (suc (suc (suc (suc (suc (suc n)))))))))) acc s h =
    absurd (omega arith)

read-digits : (f n : ℕ) (s : String) → n < f → read 0 (digits f n s) ≡ read n s
unfolding digits
read-digits zero n s h = absurd (omega arith)
read-digits (suc f) n s h = elim (Bool-cases (ltb n 10)) [
  | inl small ↦ rw small (read-digit n 0 s (ground arith) ∙ ap (λ m. read m s) (omega arith))
  | inr large ↦ rw large (
      read-digits f (n / 10) (digit (n % 10) <> s) (ground arith)
      ∙ read-digit (n % 10) (n / 10) s (omega arith)
      ∙ ap (λ m. read m s) (omega arith))
]

-- The decimal text of a number reads back as the number.
pub read-itoa : (n : ℕ) → read 0 (itoa n) ≡ n
unfolding itoa
read-itoa n = read-digits (suc n) n "" (omega arith) ∙ unfold read in refl

-- Decimal texts lack commas.
lacks-digit : (d : ℕ) → lacks b',' (digit d) ≡ true
unfolding lacks
lacks-digit zero = refl
lacks-digit (suc zero) = refl
lacks-digit (suc (suc zero)) = refl
lacks-digit (suc (suc (suc zero))) = refl
lacks-digit (suc (suc (suc (suc zero)))) = refl
lacks-digit (suc (suc (suc (suc (suc zero))))) = refl
lacks-digit (suc (suc (suc (suc (suc (suc zero)))))) = refl
lacks-digit (suc (suc (suc (suc (suc (suc (suc zero))))))) = refl
lacks-digit (suc (suc (suc (suc (suc (suc (suc (suc zero)))))))) = refl
lacks-digit (suc (suc (suc (suc (suc (suc (suc (suc (suc n))))))))) = refl

lacks-digits : (f n : ℕ) (out : String) → lacks b',' out ≡ true → lacks b',' (digits f n out) ≡ true
unfolding digits
lacks-digits zero n out h = h
lacks-digits (suc f) n out h = ground (
  arith,
  lacks-append b',' (digit n) out (lacks-digit n) h,
  lacks-digits f (n / 10) (digit (n % 10) <> out)
      (lacks-append b',' (digit (n % 10)) out (lacks-digit (n % 10)) h),
)

pub lacks-itoa : (n : ℕ) → lacks b',' (itoa n) ≡ true
unfolding itoa
lacks-itoa n = lacks-digits (suc n) n "" (unfold lacks in refl)
