-- ===== src/Prelude/Text/Join.antt =====
-- A split at the separator undoes a join of parts that lack it.
use Prim.Native.Nat.{ℕ}
use Prim.Native.Char.{Char, code}
use Prim.Native.String.{String, ◌++◌ as ◌<>◌}
use mathlib.Core.Path.{◌≡◌, refl, ◌∙◌, ap}
use mathlib.Core.Bool.{Bool, false, true}
use mathlib.Core.List.{List, [], ◌∷◌}
use native.Mathlib.Omega.{arith}
use text.Mathlib.TextLemmas.{nil-append, cons-append}
use kafka_operator.Prelude.Lists.{All}
use kafka_operator.Prelude.Tests.{if◌then◌else◌}
use kafka_operator.Prelude.Text.{join, split, is_char}

-- The character does not occur in the text.
unfoldable pub lacks : ℕ → String → Bool
lacks sep String.[] = true
lacks sep (String.◌∷◌ c s) = let rest = lacks sep s in if is_char sep c then false else rest

pub lacks-append :
    (sep : ℕ) (s t : String) → lacks sep s ≡ true → lacks sep t ≡ true → lacks sep (s <> t) ≡ true
unfolding lacks
lacks-append sep String.[] t h k = rw nil-append k
lacks-append sep (String.◌∷◌ c s) t h k =
    rw cons-append (ground (arith, lacks-append sep s t (ground arith) k))

split_of_lacks : (sep : ℕ) (s : String) → lacks sep s ≡ true → split sep s ≡ s ∷ []
unfolding split lacks
split_of_lacks sep String.[] h = refl
split_of_lacks sep (String.◌∷◌ c s) h = ground (arith, split_of_lacks sep s)

split-append :
    (sep : ℕ) (c : Char) (s t : String)
    → lacks sep s ≡ true
    → is_char sep c ≡ true
    → split sep (s <> String.◌∷◌ c t) ≡ s ∷ split sep t
unfolding split lacks
split-append sep c String.[] t h e = rw (nil-append, e) refl
split-append sep c (String.◌∷◌ d s) t h e =
    rw cons-append (ground (arith, split-append sep c s t (ground arith) e))

-- Splitting a join at its separator gives the parts back, if there is one and none holds it.
pub split-join :
    (c : Char) (p : String) (ps : List String)
    → All (λ s. lacks (code c) s ≡ true) (p ∷ ps)
    → split (code c) (join (p ∷ ps) (String.◌∷◌ c String.[])) ≡ p ∷ ps
unfolding join
split-join c p [] (h, _) = split_of_lacks (code c) p h
split-join c p (q ∷ ps) (h, hs) =
    rw (cons-append, nil-append)
      (split-append (code c) c p _ h (ground arith) ∙ ap (λ r. p ∷ r) (split-join c q ps hs))
