-- ===== src/Libc/Calls.antt =====
-- Sequences of calls of the allocator (src/pyrewire/_core/_libc.py), next to the same calls of one
-- library's functions.
use pyre_wire.Prelude.{
  ℕ, Bool, true, false, ◌≡◌, refl, ap, ap₂, sym, subst, ◌∙◌, Option, none, some, List, [], ◌∷◌,
  ◌==◌, if◌then◌else◌,
}
use pyre_wire.Prelude.Int.{ℤ, pos, ltb_ℤ, int_eq}
use pyre_wire.Python.Result.{Result, ok, err, ok-injective, value_error}
use pyre_wire.Python.Exec.{Exec, pure, raise, continue, ◌>>=◌}
use pyre_wire.Python.Words.{mask64}
use pyre_wire.Libc.{
  LibcLib, Process, Pointer, nothing, address, pointer, candidate, keep_candidate, resolve_from,
  resolve, libc_malloc, libc_free, allocate, release,
}

pub data Call : Type 0 where
  malloc_call : ℤ → Call
  free_call : Pointer → Call

-- What a call returns: an address, or nothing.
abbrev pub Answer : Type 0
Answer = Result (Option ℕ)

abbrev answer_of : {A : Type 0} → (A → Option ℕ) → Result A → Answer
answer_of f (ok a) = ok (f a)
answer_of f (err e) = err e

abbrev answered : {A S : Type 0} → (A → Option ℕ) → Result A × S → Answer × S
answered f x = (answer_of f x.0, x.1)

module _ {H W : Type 0} (lib : LibcLib H W) where
  open lib use {malloc, free}

  abbrev pub run_call : Call → Process H W → Answer × Process H W
  run_call (malloc_call n) s = answered some (libc_malloc lib n s)
  run_call (free_call p) s = answered (λ u. none) (libc_free lib p s)

  abbrev pub run_calls : List Call → Process H W → List Answer × Process H W
  run_calls [] s = ([], s)
  run_calls (c ∷ cs) s =
      let (a, s') = run_call c s in let (rest, s2) = run_calls cs s' in (a ∷ rest, s2)

  -- The same calls of the library `h`.
  module _ (h : H) where
    abbrev pub direct_free : ℕ → W → Answer × W
    direct_free a w = (ok none, free h a w)

    abbrev pub direct : Call → W → Answer × W
    direct (malloc_call n) w =
        if ltb_ℤ n (pos 0)
        then (err value_error, w)
        else let (a, w') = malloc h (mask64 n) w in (ok (some a), w')
    direct (free_call nothing) w = (ok none, w)
    direct (free_call (address a)) w = if a == pos 0 then (ok none, w) else direct_free (mask64 a) w
    direct (free_call (pointer a)) w = direct_free a w

    abbrev pub direct_calls : List Call → W → List Answer × W
    direct_calls [] w = ([], w)
    direct_calls (c ∷ cs) w =
        let (a, w') = direct c w in let (rest, w2) = direct_calls cs w' in (a ∷ rest, w2)

    IsKept : Option H → W → Result H × Process H W → Type 0
    IsKept o w r = r.0 ≡ ok h → r ≡ (ok h, record { handle = some h; world = w })

    some-IsKept :
        (h' : H) (w : W) → IsKept (some h') w (ok h', record { handle = some h'; world = w })
    unfolding IsKept
    some-IsKept h' w same =
        ap (λ x. (ok x, record { handle = some x; world = w })) (ok-injective same)

    candidate-IsKept : (o : Option H) (w : W) → IsKept o w (keep_candidate lib o w)
    unfolding IsKept keep_candidate
    candidate-IsKept none w same = absurd (cc same)
    candidate-IsKept (some h') w same = some-IsKept h' w same

    -- A library that is found is the library from then on.
    resolved : (o : Option H) (w : W) → IsKept o w (resolve_from lib o w)
    unfolding resolve_from IsKept
    resolved none w = candidate-IsKept (candidate lib w) w
    resolved (some h') w = some-IsKept h' w

    -- The same answer and the same world, and `h` is still the library.
    abbrev Agrees : Answer × W → Answer × Process H W → Type 0
    Agrees d r = (r.0 ≡ d.0) × ((r.1.world ≡ d.1) × ((resolve lib r.1).0 ≡ ok h))

    if-Agrees :
        {A : Type 0} {d d' : Answer × W} (b : Bool) (f : A → Option ℕ) (m m' : Exec (Process H W) A)
        (s : Process H W)
        → Agrees d (answered f (m s))
        → Agrees d' (answered f (m' s))
        → Agrees (if b then d else d') (answered f ((if b then m else m') s))
    if-Agrees true f m m' s then_agrees else_agrees = then_agrees
    if-Agrees false f m m' s then_agrees else_agrees = else_agrees

    >>=-Agrees :
        {A : Type 0} {d : Answer × W} (f : A → Option ℕ) (k : H → Exec (Process H W) A)
        (s : Process H W)
        → (resolve lib s).0 ≡ ok h
        → Agrees d (answered f (k h (record { handle = some h; world = s.world })))
        → Agrees d (answered f ((resolve lib >>= k) s))
    unfolding resolve IsKept
    >>=-Agrees {A} {d} f k s found agrees =
        subst (λ r. Agrees d (answered f (continue r.0 k r.1)))
          (sym (resolved s.handle s.world found)) agrees

    malloc-Agrees :
        (n : ℕ) (s : Process H W)
        → (resolve lib s).0 ≡ ok h
        → Agrees
            (let (a, w) = malloc h n s.world in (ok (some a), w))
            (answered some ((resolve lib >>= allocate lib n) s))
    unfolding resolve resolve_from
    malloc-Agrees n s found = >>=-Agrees some (allocate lib n) s found (refl, (refl, refl))

    free-Agrees :
        (a : ℕ) (s : Process H W)
        → (resolve lib s).0 ≡ ok h
        → Agrees (direct_free a s.world) (answered (λ u. none) ((resolve lib >>= release lib a) s))
    unfolding resolve resolve_from
    free-Agrees a s found = >>=-Agrees (λ u. none) (release lib a) s found (refl, (refl, refl))

    run_call-direct :
        (c : Call) (s : Process H W)
        → (resolve lib s).0 ≡ ok h
        → Agrees (direct c s.world) (run_call c s)
    unfolding libc_malloc libc_free
    run_call-direct (malloc_call n) s found =
        if-Agrees (ltb_ℤ n (pos 0)) some (raise value_error)
          (resolve lib >>= allocate lib (mask64 n)) s (refl, (refl, found))
          (malloc-Agrees (mask64 n) s found)
    run_call-direct (free_call nothing) s found = (refl, (refl, found))
    run_call-direct (free_call (address a)) s found =
        if-Agrees (a == pos 0) (λ u. none) (pure tt) (resolve lib >>= release lib (mask64 a)) s
          (refl, (refl, found)) (free-Agrees (mask64 a) s found)
    run_call-direct (free_call (pointer a)) s found = free-Agrees a s found

    -- When the library that the process finds is `h`, at its first call or in `_HANDLE`, every
    -- sequence of calls of `libc_malloc` and `libc_free` has the answers, the `ValueError` of a
    -- negative size among them, and the effects of the same calls of the functions of `h`: all callers
    -- use one allocator, whatever the calls change of what could be loaded later. `None` and the
    -- address 0 are not passed to `free`.
    pub run_calls-direct :
        (cs : List Call) (s : Process H W)
        → (resolve lib s).0 ≡ ok h
        → ((run_calls cs s).0 ≡ (direct_calls cs s.world).0)
          × ((run_calls cs s).1.world ≡ (direct_calls cs s.world).1)
    run_calls-direct [] s found = (refl, refl)
    run_calls-direct (c ∷ cs) s found =
        let (answer, (world, again)) = run_call-direct c s found in
        let (rest, after) = run_calls-direct cs (run_call c s).1 again in
        (
          ap₂ (λ x xs. x ∷ xs) answer (rest ∙ ap (λ w. (direct_calls cs w).0) world),
          after ∙ ap (λ w. (direct_calls cs w).1) world,
        )
