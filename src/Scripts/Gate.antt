-- ===== src/Scripts/Gate.antt =====
-- What a passing run of scripts/ci/check_dynamic_link.py means.
use pyre_wire.Prelude.{
  ℕ, String, ◌≡◌, ◌≢◌, ◌↔◌, refl, sym, ◌∙◌, List, [], ◌∷◌, ◌++◌, length, length-append, arith,
  nat_eq,
}
use pyre_wire.Scripts.Wheels.{
  Wheel, Offence, check_wheel, Expand, check_paths, check_arguments, exit_code, main,
}
use pyre_wire.Scripts.Dynamic.{All, IsDynamic, check_wheel_iff}

-- The wheels that a command line stands for.
abbrev pub wheels : Expand → List String → List Wheel
wheels expand [] = []
wheels expand (a ∷ argv) = expand a ++ wheels expand argv

append-eq-nil_iff : {A : Type 0} (xs ys : List A) → (xs ++ ys ≡ []) ↔ ((xs ≡ []) × (ys ≡ []))
append-eq-nil_iff [] ys = (λ e. (refl, e), λ h. h.1)
append-eq-nil_iff (x ∷ xs) ys = (λ e. absurd (cc e), λ h. absurd (cc h.0))

All-append_iff :
    {A : Type 0} (P : A → Type 0) (xs ys : List A) → All P (xs ++ ys) ↔ (All P xs × All P ys)
All-append_iff P [] ys = (λ h. (tt, h), λ h. h.1)
All-append_iff P (x ∷ xs) ys =
    let (to, from) = All-append_iff P xs ys in
    (λ h. ((h.0, (to h.1).0), (to h.1).1), λ h. (h.0.0, from (h.0.1, h.1)))

length_iff : {A : Type 0} (xs : List A) → (length xs ≢ 0) ↔ (xs ≢ [])
length_iff [] = (λ some_left e. some_left refl, λ some_left e. some_left refl)
length_iff (x ∷ xs) = (λ some_left e. cc e, λ some_left e. omega (arith, e))

module _ (system : String) where
  check_paths_iff : (ws : List Wheel) → ((check_paths system ws).0 ≡ []) ↔ All (IsDynamic system) ws
  unfolding check_paths
  check_paths_iff [] = (λ e. tt, λ h. refl)
  check_paths_iff (w ∷ ws) =
      let (split, join) = append-eq-nil_iff (check_wheel system w) (check_paths system ws).0 in
      let (to, from) = check_wheel_iff system w in
      let (all, none_left) = check_paths_iff ws in
      (λ e. (to (split e).0, all (split e).1), λ h. join (from h.0, none_left h.1))

  checked-check_paths : (ws : List Wheel) → (check_paths system ws).1 ≡ length ws
  unfolding check_paths
  checked-check_paths [] = refl
  checked-check_paths (w ∷ ws) = omega (arith, checked-check_paths ws)

  module _ (expand : Expand) where
    check_arguments_iff :
        (argv : List String)
        → ((check_arguments system expand argv).0 ≡ [])
          ↔ All (IsDynamic system) (wheels expand argv)
    unfolding check_arguments
    check_arguments_iff [] = (λ e. tt, λ h. refl)
    check_arguments_iff (a ∷ argv) =
        let (split, join) =
          append-eq-nil_iff (check_paths system (expand a)).0
            (check_arguments system expand argv).0 in
        let (to, from) = check_paths_iff (expand a) in
        let (all, none_left) = check_arguments_iff argv in
        let (parts, whole) = All-append_iff (IsDynamic system) (expand a) (wheels expand argv) in
        (
          λ e. whole (to (split e).0, all (split e).1),
          λ h. join (from (parts h).0, none_left (parts h).1),
        )

    checked-check_arguments :
        (argv : List String) → (check_arguments system expand argv).1 ≡ length (wheels expand argv)
    unfolding check_arguments
    checked-check_arguments [] = refl
    checked-check_arguments (a ∷ argv) = omega (
      arith,
      checked-check_paths (expand a),
      checked-check_arguments argv,
      length-append (expand a) (wheels expand argv),
    )

    exit_code_iff : (x : List Offence × ℕ) → (exit_code x ≡ 0) ↔ ((x.0 ≡ []) × (x.1 ≢ 0))
    unfolding exit_code
    exit_code_iff (e ∷ errors, checked) = (λ h. absurd (omega arith), λ h. absurd (cc h.0))
    exit_code_iff ([], checked) = (λ h. (refl, ground arith), λ h. ground arith)

    -- The script ends with the exit code 0 exactly when its arguments stand for at least one wheel and
    -- every one of these is there, is of a known platform by its tag or else by the running system, and
    -- has what the platform asks for: on Linux a `libwirelog.so*`, and `file` calls each of them a
    -- shared object; on macOS a dylib, and `otool` prints an install name of each; on Windows the three
    -- DLLs.
    pub main_iff :
        (argv : List String)
        → (main system expand argv ≡ 0)
          ↔ ((wheels expand argv ≢ []) × All (IsDynamic system) (wheels expand argv))
    unfolding main
    main_iff [] = (λ e. absurd (omega arith), λ h. absurd (h.0 refl))
    main_iff (a ∷ argv) =
        let (to, from) = exit_code_iff (check_arguments system expand (a ∷ argv)) in
        let (all, none_left) = check_arguments_iff (a ∷ argv) in
        let counted = checked-check_arguments (a ∷ argv) in
        (
          λ e. (
            (length_iff (wheels expand (a ∷ argv))).0 (λ z. (to e).1 (counted ∙ z)),
            all (to e).0,
          ),
          λ h.
              from (
                none_left h.1,
                λ z. (length_iff (wheels expand (a ∷ argv))).1 h.0 (sym counted ∙ z),
              ),
        )
