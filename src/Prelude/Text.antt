-- ===== src/Prelude/Text.antt =====
-- The text functions of Go's standard library that the operator calls: `strings.Join`,
-- `strconv.Itoa`, `path.Join` (with `path.Clean`), and the split at a separator that undoes a join.
pub mod Decimal
pub mod Join
use Prim.Native.Nat.{ℕ, compare, Ordering}
use Prim.Native.Char.{Char, code}
use Prim.Native.String.{String, ◌++◌ as ◌<>◌}
use mathlib.Core.Path.{◌≡◌}
use text.Mathlib.TextLemmas.{nil-append, cons-append}
use mathlib.Core.Bool.{Bool, true, false, ◌||◌}
use mathlib.Core.List.{List, [], ◌∷◌, reverse}
use kafka_operator.Prelude.Tests.{◌==◌, is_set, is_set_iff, if◌then◌else◌}

-- `strings.Join(parts, sep)`
unfoldable pub join : List String → String → String
join [] sep = ""
join (p ∷ []) sep = p
join (p ∷ q ∷ ps) sep = p <> (sep <> join (q ∷ ps) sep)

abbrev pub is_char : ℕ → Char → Bool
is_char sep c = elim (compare (code c) sep) [ Ordering.eq ↦ true | _ ↦ false ]

abbrev pub onto_head : Char → List String → List String
onto_head c [] = String.◌∷◌ c String.[] ∷ []
onto_head c (p ∷ ps) = String.◌∷◌ c p ∷ ps

-- The parts of a text between the occurrences of a character.
unfoldable pub split : ℕ → String → List String
split sep String.[] = "" ∷ []
split sep (String.◌∷◌ c s) =
    let rest = split sep s in if is_char sep c then "" ∷ rest else onto_head c rest

-- ".." in `path.Clean`: it drops the last part, is ignored at the root, and stays in front of a
-- relative path. The parts kept so far have the last one at the head.
abbrev parent : Bool → List String → List String
parent true [] = []
parent false [] = ".." ∷ []
parent rooted (last ∷ before) = if last == ".." then ".." ∷ last ∷ before else before

abbrev clean_part : Bool → List String → String → List String
clean_part rooted kept part =
    if part == "" || part == "."
    then kept
    else if part == ".."
    then parent rooted kept
    else part ∷ kept

clean_parts : Bool → List String → List String → List String
clean_parts rooted kept [] = reverse kept
clean_parts rooted kept (part ∷ parts) = clean_parts rooted (clean_part rooted kept part) parts

abbrev starts_rooted : String → Bool
starts_rooted String.[] = false
starts_rooted (String.◌∷◌ c s) = is_char b'/' c

-- `path.Clean`
clean : String → String
clean p =
    let rooted = starts_rooted p in
    let body = join (clean_parts rooted [] (split b'/' p)) "/" in
    if rooted then "/" <> body else if is_set body then body else "."

-- Empty elements in front are skipped.
join_elems : String → List String → String
join_elems buf [] = buf
join_elems buf (e ∷ es) =
    join_elems (if is_set buf then buf <> ("/" <> e) else if is_set e then e else buf) es

-- `path.Join`
unfoldable pub path_join : List String → String
unfolding join_elems clean clean_parts join split is_set
path_join es = let buf = join_elems "" es in if is_set buf then clean buf else ""

-- A text with a suffix that is set is set.
pub is_set-append : (s t : String) → is_set t ≡ true → is_set (s <> t) ≡ true
is_set-append String.[] t h = rw nil-append h
is_set-append (String.◌∷◌ c s) t h = rw cons-append ((is_set_iff _).1 (λ e. cc))
