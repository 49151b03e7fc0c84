-- ===== src/Config/Order.antt =====
-- internal/controller/cluster_config.go: the merge of the default files, for any order in which Go
-- visits the files and their keys. The defaults are enumerations of a map of
-- maps, of which only the default of each key of each file is kept.
use text.Mathlib.TextEquality.{IsScalar-prop}
use mathlib.Core.Quot
use mathlib.Core.Quot.{Quot}
use kafka_operator.Prelude.{
  String, Option, none, some, [], ◌∷◌, ◌≡◌, refl, ◌≢◌, ◌⊎◌, inl, inr, arith, ok, panic, ◌==◌,
  ==_iff, ==_refl, Bool-cases, Option-cases, sym, ◌∙◌, if◌then◌else◌, subst,
}
use kafka_operator.Prelude.Lists.{All}
use kafka_operator.Prelude.Dict.{Dict, lookup, or_else, NodupKeys}
use kafka_operator.Config.{merge_file, merge_files}
use kafka_operator.Config.Files.{
  value_of, default_of, fill_file-nil, merge_files-value, merge_file-eq-panic_iff, merge_file-cases,
  lookup-merge_file,
}

-- The two give every key of every file the same default, in whatever order they enumerate them. A
-- file without keys is not told from a file that is missing.
abbrev pub SameDefaults : Dict (Dict String) → Dict (Dict String) → Type 0
SameDefaults d e = (f k : String) → default_of f k d ≡ default_of f k e

abbrev pub Defaults : Type 0
Defaults = Quot SameDefaults

set_of_texts : IsSet (Option String)
set_of_texts = hlevel (IsScalar-prop)

-- the default of a key in a file of the map
pub default_in : String → String → Defaults → Option String
default_in f k = Quot.lift set_of_texts (default_of f k) (λ d e same. same f k)

-- A default is to be written into a file that the user has as a nil map.
abbrev pub MeetsNil : Dict (Option (Dict String)) → Defaults → Type 0
MeetsNil files ds =
    (f : String) × (k : String) × (default_in f k ds ≢ none) × (lookup f files ≡ some none)

-- The same of an enumeration.
abbrev pub Meets : Dict (Option (Dict String)) → Dict (Dict String) → Type 0
Meets files defaults =
    (f : String) × (k : String) × (default_of f k defaults ≢ none) × (lookup f files ≡ some none)

-- No enumeration repeats a key.
abbrev pub HasKeys : Dict (Dict String) → Type 0
HasKeys defaults = NodupKeys defaults × All (λ e. NodupKeys (e.1)) defaults

default_of-cons :
    (f k g : String) (d : Dict String) (defaults : Dict (Dict String))
    → default_of f k ((g, d) ∷ defaults) ≡ (if g == f then lookup k d else default_of f k defaults)
unfolding lookup
default_of-cons f k g d defaults = ground arith

merge_file-Meets :
    (f k : String) (d : Dict String) (files : Dict (Option (Dict String)))
    → lookup k d ≢ none
    → lookup f files ≡ some none
    → merge_file f d files ≡ panic
unfolding lookup
merge_file-Meets f k [] files there nil = absurd (there refl)
merge_file-Meets f k ((j, v) ∷ d) files there nil = (merge_file-eq-panic_iff f j v d files).1 nil

pub merge_files-Meets :
    (files : Dict (Option (Dict String))) (defaults : Dict (Dict String))
    → HasKeys defaults
    → Meets files defaults
    → merge_files files defaults ≡ panic
unfolding merge_files lookup
merge_files-Meets files [] keys (f, k, there, nil) = absurd (there refl)
merge_files-Meets files ((g, d) ∷ defaults) ((fresh, u), (ud, us)) (f, k, there, nil) =
    elim (Bool-cases (g == f)) [
      | inl same ↦
          rw
            (merge_file-Meets g k d files (ground (arith, default_of-cons f k g d defaults))
              (ground (arith, ==_iff g f)))
            refl
      | inr other ↦ elim (merge_file-cases g d files) [
        | inl panics ↦ rw panics refl
        | inr (merged, one) ↦ rw one (
            merge_files-Meets merged defaults (u, us)
              (
                f,
                k,
                ground (arith, default_of-cons f k g d defaults),
                lookup-merge_file g f d files merged ud other one ∙ nil,
              ))
      ]
    ]

-- A merge of one file that panics has something to write into a nil map.
merge_file-panic :
    (f : String) (d : Dict String) (files : Dict (Option (Dict String)))
    → merge_file f d files ≡ panic
    → (k : String) × (lookup k d ≢ none) × (lookup f files ≡ some none)
unfolding merge_file lookup
merge_file-panic f [] files h = elim (Option-cases (lookup f files)) [
  | inl missing ↦ absurd (ground arith)
  | inr (m, found) ↦ absurd (ground (arith, fill_file-nil m))
]
merge_file-panic f ((k, v) ∷ d) files h =
    (k, ground (arith, ==_refl k), (merge_file-eq-panic_iff f k v d files).0 h)

-- A merge of the files panics only so, and succeeds else.
pub merge_files-cases :
    (files : Dict (Option (Dict String))) (defaults : Dict (Dict String))
    → HasKeys defaults
    → Meets files defaults
      ⊎ ((r : Dict (Option (Dict String))) × (merge_files files defaults ≡ ok r))
unfolding merge_files
merge_files-cases files [] keys = inr (files, refl)
merge_files-cases files ((g, d) ∷ defaults) ((fresh, u), (ud, us)) =
    elim (merge_file-cases g d files) [
      | inl panics ↦
          let (k, there, nil) = merge_file-panic g d files panics in
          inl (g, k, ground (arith, default_of-cons g k g d defaults, ==_iff g g), nil)
      | inr (merged, one) ↦ elim (merge_files-cases merged defaults (u, us)) [
        | inl (f, k, there, nil) ↦ elim (Bool-cases (g == f)) [
          | inl same ↦ absurd (ground (arith, ==_iff g f))
          | inr other ↦ inl (
            f,
            k,
            ground (arith, default_of-cons f k g d defaults),
            sym (lookup-merge_file g f d files merged ud other one) ∙ nil,
          )
        ]
        | inr (r, rest) ↦ inr (r, rw one rest)
      ]
    ]

-- Nothing is to be written into a nil map, and every key of every file has the user's value where
-- there is one and the map's default else.
abbrev pub IsMerge : Dict (Option (Dict String)) → Defaults → Dict (Option (Dict String)) → Type 0
IsMerge files ds r =
    (¬ MeetsNil files ds)
    × ((f k : String) → value_of f k r ≡ or_else (value_of f k files) (default_in f k ds))

-- Let the defaults be a map of maps whose enumerations never repeat a key, and the loops visit it in
-- any order. The merge panics, and then there is a default to be written into a file that the user
-- has as a nil map, or it succeeds, and then there is none, and every key of every file has the
-- user's value where there is one and the map's default else.
pub merge_files-refines :
    (files : Dict (Option (Dict String))) (ds : Defaults) (defaults : Dict (Dict String))
    → Quot.mk defaults ≡ ds
    → HasKeys defaults
    → ((merge_files files defaults ≡ panic) × MeetsNil files ds)
      ⊎ ((r : Dict (Option (Dict String))) × (merge_files files defaults ≡ ok r)
          × IsMerge files ds r)
unfolding default_in
merge_files-refines files ds defaults same keys = elim (merge_files-cases files defaults keys) [
  | inl (f, k, there, nil) ↦ inl (
    merge_files-Meets files defaults keys (f, k, there, nil),
    subst (MeetsNil files) same (f, k, there, nil),
  )
  | inr (r, merged) ↦ inr (
    r,
    merged,
    subst (λ ds. IsMerge files ds r) same
        (
          λ (f, k, there, nil).
              cc (merged, merge_files-Meets files defaults keys (f, k, there, nil)),
          λ f k. merge_files-value f k files r defaults keys.0 keys.1 merged,
        ),
  )
]
