-- ===== src/Startup/Run.antt =====
-- cmd/main.go: which calls the program makes, and how it ends.
use kafka_operator.Prelude.{
  String, Bool, true, false, Option, none, some, List, [], ◌∷◌, ◌≡◌, refl, ap, ◌∙◌, arith,
  Option-cases, inl, inr, if◌then◌else◌,
}
use kafka_operator.Version.{AppInfo, Runtime, app_info_string, new_app_info}
use kafka_operator.Startup.{
  Call, End, Flags, Trace, add_healthz_check, add_readyz_check, add_to_scheme, attempt, client_go,
  exit, get_config, kafka, listeners, main, manager_options, new_manager, panicked, print, program,
  setup_with_manager, start, start_manager,
}

-- A printed line that fails is not noticed.
abbrev pub error_of : (Call → Option String) → Call → Option String
error_of answer (print text) = none
error_of answer call = answer call

-- The calls up to the first that fails, and with it.
abbrev pub until_failure : (Call → Option String) → List Call → List Call
until_failure answer [] = []
until_failure answer (call ∷ calls) = elim (error_of answer call) [
  | none ↦ call ∷ until_failure answer calls
  | some e ↦ call ∷ []
]

-- A scheme that cannot be added is a panic, any other failure is exit code 1.
abbrev pub failure_of : Call → End
failure_of (add_to_scheme s) = panicked
failure_of _ = exit 1

abbrev pub end_of : (Call → Option String) → List Call → End
end_of answer [] = exit 0
end_of answer (call ∷ calls) = elim (error_of answer call) [
  | none ↦ end_of answer calls
  | some e ↦ failure_of call
]

abbrev pub trace_of : (Call → Option String) → List Call → Trace
trace_of answer calls = record { calls = until_failure answer calls; end = end_of answer calls }

abbrev pub manager_calls : Flags → List Call
manager_calls flags =
    get_config
    ∷ new_manager (manager_options flags)
    ∷ setup_with_manager
    ∷ add_healthz_check
    ∷ add_readyz_check
    ∷ start
    ∷ []

abbrev pub main_calls : Runtime → (AppInfo → Option String) → Flags → List Call
main_calls runtime marshal flags =
    if flags.show_version
    then print (app_info_string marshal (new_app_info runtime "kafka-operator")) ∷ []
    else manager_calls flags

-- The calls of a run without a failure.
abbrev pub plan : Runtime → (AppInfo → Option String) → Flags → List Call
plan runtime marshal flags =
    add_to_scheme client_go
    ∷ add_to_scheme kafka
    ∷ add_to_scheme listeners
    ∷ main_calls runtime marshal flags

module _ (answer : Call → Option String) where
  attempt-trace_of :
      (call : Call) (calls : List Call)
      → error_of answer call ≡ answer call
      → attempt answer call (failure_of call) (trace_of answer calls)
        ≡ trace_of answer (call ∷ calls)
  attempt-trace_of call calls asked = elim (Option-cases (answer call)) [
    | inl fine ↦ rw (until_failure, end_of, attempt, asked, fine) refl
    | inr (e, fails) ↦ ground (arith, asked, fails)
  ]

  -- The next call extends a run that follows its plan.
  extend :
      (call : Call) (calls : List Call) (rest : Trace)
      → error_of answer call ≡ answer call
      → rest ≡ trace_of answer calls
      → attempt answer call (failure_of call) rest ≡ trace_of answer (call ∷ calls)
  extend call calls rest asked follows =
      ap (attempt answer call (failure_of call)) follows ∙ attempt-trace_of call calls asked

  start_manager-trace_of :
      (flags : Flags) → start_manager answer flags ≡ trace_of answer (manager_calls flags)
  unfolding start_manager
  start_manager-trace_of flags =
      let started = start ∷ [] in
      let readyz = add_readyz_check ∷ started in
      let healthz = add_healthz_check ∷ readyz in
      let controlled = setup_with_manager ∷ healthz in
      let managed = new_manager (manager_options flags) ∷ controlled in
      extend get_config managed _ refl (
        extend (new_manager (manager_options flags)) controlled _ refl (
          extend setup_with_manager healthz _ refl (
            extend add_healthz_check readyz _ refl
              (extend add_readyz_check started _ refl (extend start [] _ refl refl)))))

  version_or :
      (version : Bool) (text : String) (calls : List Call) (rest : Trace)
      → rest ≡ trace_of answer calls
      → (if version then record { calls = print text ∷ []; end = exit 0 } else rest)
        ≡ trace_of answer (if version then print text ∷ [] else calls)
  version_or true text calls rest follows = refl
  version_or false text calls rest follows = follows

-- A run makes the calls of the plan in order, up to the first that fails: with `--version` the line
-- is printed and nothing is started, and else the manager is made, set up and started. It ends with
-- exit code 0 if none fails, with a panic if a scheme cannot be added, and with exit code 1 if
-- another call fails.
pub program-eq-trace_of :
    (runtime : Runtime) (marshal : AppInfo → Option String) (answer : Call → Option String)
    (flags : Flags)
    → program runtime marshal answer flags ≡ trace_of answer (plan runtime marshal flags)
unfolding program main
program-eq-trace_of runtime marshal answer flags =
    let next = extend answer in
    let calls = main_calls runtime marshal flags in
    let listened = add_to_scheme listeners ∷ calls in
    next (add_to_scheme client_go) (add_to_scheme kafka ∷ listened) _ refl (
      next (add_to_scheme kafka) listened _ refl (
        next (add_to_scheme listeners) calls _ refl (
          version_or answer flags.show_version
            (app_info_string marshal (new_app_info runtime "kafka-operator")) (manager_calls flags)
            (start_manager answer flags) (start_manager-trace_of answer flags))))
