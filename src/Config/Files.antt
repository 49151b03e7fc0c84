-- ===== src/Config/Files.antt =====
-- internal/controller/cluster_config.go: the merge of the default files into the user's overrides.
use kafka_operator.Prelude.{
  String, true, false, Option, none, some, [], ◌∷◌, ◌≡◌, refl, ◌↔◌, ◌≢◌, ◌⊎◌, inl, inr, arith, ok,
  panic, ◌==◌, ==_iff, if◌then◌else◌, Option-cases, Result-ok_injective, subst, sym, ap, ◌∙◌, ◌>>=◌,
  ◌||◌, >>=-eq-ok,
}
use kafka_operator.Prelude.Lists.{All, All-map}
use kafka_operator.Prelude.Dict.{
  Dict, lookup, set, get?, has, fill, or_else, NodupKeys, lookup-set, lookup-fill, All-lookup,
  All-of_lookup, set-lookup,
}
use kafka_operator.Config.{fill_file, merge_file, merge_files}

-- the value that a file has for a key
abbrev pub value_of : String → String → Dict (Option (Dict String)) → Option String
value_of f k files = elim (lookup f files) [ none ↦ none | some m ↦ get? k m ]

-- the default of a key in a file
abbrev pub default_of : String → String → Dict (Dict String) → Option String
default_of f k defaults = elim (lookup f defaults) [ none ↦ none | some m ↦ lookup k m ]

-- Filling a map that is not nil cannot fail.
pub fill_file-eq-fill :
    (m defaults : Dict String) → fill_file (some m) defaults ≡ ok (some (fill m defaults))
unfolding fill_file fill
fill_file-eq-fill m [] = refl
fill_file-eq-fill m ((k, v) ∷ defaults) =
    ground (arith, fill_file-eq-fill m defaults, fill_file-eq-fill (set k v m) defaults)

-- Filling a nil map panics unless nothing is to be filled.
pub fill_file-none :
    (k v : String) (defaults : Dict String) → fill_file none ((k, v) ∷ defaults) ≡ panic
unfolding fill_file
fill_file-none k v defaults = refl

-- Nothing is to be filled.
pub fill_file-nil : (m : Option (Dict String)) → fill_file m [] ≡ ok m
unfolding fill_file
fill_file-nil m = refl

fill_file-value :
    (k : String) (m r : Option (Dict String)) (defaults : Dict String)
    → NodupKeys defaults
    → fill_file m defaults ≡ ok r
    → get? k r ≡ or_else (get? k m) (lookup k defaults)
unfolding lookup
fill_file-value k none r [] u h =
    subst (λ o. get? k o ≡ none) (Result-ok_injective (sym (fill_file-nil none) ∙ h)) refl
fill_file-value k none r ((j, v) ∷ defaults) u h = ground (arith, fill_file-none j v defaults)
fill_file-value k (some m) r defaults u h =
    subst (λ o. get? k o ≡ or_else (lookup k m) (lookup k defaults))
      (Result-ok_injective (sym (fill_file-eq-fill m defaults) ∙ h)) (lookup-fill k m defaults u)

-- A file that the user mentions is filled.
merge_file-present :
    (filename : String) (configs : Dict String) (files : Dict (Option (Dict String)))
    (m : Option (Dict String))
    → lookup filename files ≡ some m
    → merge_file filename configs files ≡ (fill_file m configs >>= λ m'. ok (set filename m' files))
unfolding merge_file
merge_file-present filename configs files m there = rw (merge_file, there) refl

-- What a merge of one file leads to, without a panic.
merge_file-entries :
    (filename : String) (configs : Dict String) (files r : Dict (Option (Dict String)))
    → NodupKeys configs
    → merge_file filename configs files ≡ ok r
    → (m : Option (Dict String)) × (r ≡ set filename m files)
      × ((k : String) → get? k m ≡ or_else (value_of filename k files) (lookup k configs))
unfolding merge_file
merge_file-entries filename configs files r u h = elim (Option-cases (lookup filename files)) [
  | inl missing ↦ (some configs, ground arith, λ k. ground arith)
  | inr (m, there) ↦
      let (m', filled, same) =
        >>=-eq-ok (fill_file m configs) (λ m'. ok (set filename m' files))
          (sym (merge_file-present filename configs files m there) ∙ h) in
      (
        m',
        sym (Result-ok_injective same),
        λ k. ground (arith, fill_file-value k m m' configs u filled, there),
      )
]

-- One file's merge changes that file alone, and there only what the user left out.
merge_file-value :
    (f k filename : String) (configs : Dict String) (files r : Dict (Option (Dict String)))
    → NodupKeys configs
    → merge_file filename configs files ≡ ok r
    → value_of f k r ≡ (
        if filename == f
        then or_else (value_of f k files) (lookup k configs)
        else value_of f k files)
merge_file-value f k filename configs files r u h =
    let (m, same, value) = merge_file-entries filename configs files r u h in
    ground (arith, value k, lookup-set f filename m files, ==_iff filename f, ap (lookup f) same)

merge_file-has :
    (f filename : String) (configs : Dict String) (files r : Dict (Option (Dict String)))
    → NodupKeys configs
    → merge_file filename configs files ≡ ok r
    → has f r ≡ (filename == f || has f files)
merge_file-has f filename configs files r u h =
    let (m, same, value) = merge_file-entries filename configs files r u h in
    ground (arith, lookup-set f filename m files, ap (lookup f) same)

module _ (f : String) where
  -- The user's value of every key of every file stays, and a default fills what is missing.
  pub merge_files-value :
      (k : String) (files r : Dict (Option (Dict String))) (defaults : Dict (Dict String))
      → NodupKeys defaults
      → All (λ e. NodupKeys (e.1)) defaults
      → merge_files files defaults ≡ ok r
      → value_of f k r ≡ or_else (value_of f k files) (default_of f k defaults)
  unfolding merge_files lookup
  merge_files-value k files r [] _ _ h =
      subst (λ o. value_of f k o ≡ or_else (value_of f k files) none) (Result-ok_injective h)
        (ground arith)
  merge_files-value k files r ((filename, configs) ∷ defaults) (fresh, u) (u', us) h =
      let (merged, one, rest) =
        >>=-eq-ok (merge_file filename configs files) (λ m. merge_files m defaults) h in
      ground (
        arith,
        merge_files-value k merged r defaults u us rest,
        merge_file-value f k filename configs files merged u' one,
        ==_iff filename f,
      )

  merge_files-has :
      (files r : Dict (Option (Dict String))) (defaults : Dict (Dict String))
      → All (λ e. NodupKeys (e.1)) defaults
      → merge_files files defaults ≡ ok r
      → has f r ≡ (has f files || has f defaults)
  unfolding merge_files lookup
  merge_files-has files r [] _ h = ground (arith, ap (lookup f) (Result-ok_injective h))
  merge_files-has files r ((filename, configs) ∷ defaults) (u, us) h =
      let (merged, one, rest) =
        >>=-eq-ok (merge_file filename configs files) (λ m. merge_files m defaults) h in
      ground (
        arith,
        merge_files-has merged r defaults us rest,
        merge_file-has f filename configs files merged u one,
      )

-- A map that has all the defaults' keys is not changed.
fill_file-eq_self :
    (m : Option (Dict String)) (defaults : Dict String)
    → All (λ e. get? (e.0) m ≢ none) defaults
    → fill_file m defaults ≡ ok m
unfolding fill_file lookup
fill_file-eq_self m [] _ = refl
fill_file-eq_self none ((k, v) ∷ defaults) (there, all) = ground arith
fill_file-eq_self (some m) ((k, v) ∷ defaults) (there, all) =
    ground (arith, fill_file-eq_self (some m) defaults all)

-- Every default file is there, with every default key.
abbrev pub IsFilled : Dict (Option (Dict String)) → Dict (Dict String) → Type 0
IsFilled files defaults =
    All (λ f. All (λ e. value_of (f.0) (e.0) files ≢ none) (f.1) × (has (f.0) files ≡ true))
      defaults

merge_file-eq_self :
    (f : String) (d : Dict String) (files : Dict (Option (Dict String)))
    → All (λ e. value_of f (e.0) files ≢ none) d
    → has f files ≡ true
    → merge_file f d files ≡ ok files
merge_file-eq_self f d files entries there = elim (Option-cases (lookup f files)) [
  | inl missing ↦ ground arith
  | inr (m, found) ↦ ground (
    arith,
    merge_file-present f d files m found,
    fill_file-eq_self m d (All-map (λ e set. ground arith) d entries),
    set-lookup f m files found,
  )
]

-- A second merge of the same defaults changes nothing.
pub merge_files-eq_self :
    (files : Dict (Option (Dict String))) (defaults : Dict (Dict String))
    → IsFilled files defaults
    → merge_files files defaults ≡ ok files
unfolding merge_files
merge_files-eq_self files [] _ = refl
merge_files-eq_self files ((f, d) ∷ defaults) ((entries, there), all) =
    rw (merge_file-eq_self f d files entries there) (merge_files-eq_self files defaults all)

-- After a merge, every default file has every default key.
pub merge_files-IsFilled :
    (files r : Dict (Option (Dict String))) (defaults : Dict (Dict String))
    → NodupKeys defaults
    → All (λ e. NodupKeys (e.1)) defaults
    → merge_files files defaults ≡ ok r
    → IsFilled r defaults
merge_files-IsFilled files r defaults u us h = All-of_lookup _ defaults u (λ f d found. (
  All-of_lookup _ d (All-lookup (λ e. NodupKeys (e.1)) defaults f d us found)
      (λ k v there. ground (arith, merge_files-value f k files r defaults u us h)),
  ground (arith, merge_files-has f files r defaults us h),
))

-- The merge of the default files panics exactly if the user has a nil map for a default file.
pub merge_file-eq-panic_iff :
    (f k v : String) (d : Dict String) (files : Dict (Option (Dict String)))
    → (merge_file f ((k, v) ∷ d) files ≡ panic) ↔ (lookup f files ≡ some none)
unfolding merge_file
merge_file-eq-panic_iff f k v d files = elim (Option-cases (lookup f files)) [
  | inl missing ↦ ground arith
  | inr (none, found) ↦ ground (arith, fill_file-none k v d)
  | inr (some m, found) ↦ ground (arith, fill_file-eq-fill m ((k, v) ∷ d))
]

nil_map : (d : Dict String) → (fill_file none d ≡ panic) ⊎ (fill_file none d ≡ ok none)
nil_map [] = inr (fill_file-nil none)
nil_map ((k, v) ∷ d) = inl (fill_file-none k v d)

-- A merge of one file panics or succeeds.
pub merge_file-cases :
    (f : String) (d : Dict String) (files : Dict (Option (Dict String)))
    → (merge_file f d files ≡ panic)
      ⊎ ((r : Dict (Option (Dict String))) × (merge_file f d files ≡ ok r))
unfolding merge_file
merge_file-cases f d files = elim (Option-cases (lookup f files)) [
  | inl missing ↦ inr (set f (some d) files, ground arith)
  | inr (some m, found) ↦ inr (set f (some (fill m d)) files, ground (arith, fill_file-eq-fill m d))
  | inr (none, found) ↦ elim (nil_map d) [
    | inl panics ↦ inl (ground arith)
    | inr kept ↦ inr (set f none files, ground arith)
  ]
]

-- It leaves the other files alone.
pub lookup-merge_file :
    (f g : String) (d : Dict String) (files r : Dict (Option (Dict String)))
    → NodupKeys d
    → (f == g) ≡ false
    → merge_file f d files ≡ ok r
    → lookup g r ≡ lookup g files
lookup-merge_file f g d files r u other h =
    let (m, same, value) = merge_file-entries f d files r u h in
    ground (arith, lookup-set g f m files, ap (lookup g) same)
