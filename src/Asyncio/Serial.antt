-- ===== src/Asyncio/Serial.antt =====
-- The order and the completion of the calls of a proxy (src/pyrewire/asyncio_session.py).
use pyre_wire.Prelude.{
  ℕ, suc, ◌+◌, ◌≤◌, ◌≡◌, refl, sym, subst, ◌∙◌, List, [], ◌∷◌, ◌++◌, length, length-append,
  append-nil, append_assoc, arith,
}
use pyre_wire.Asyncio.Within.{
  IsWithin, none_left, IsWithin-trans, IsWithin-append, IsWithin-prepend, remove_at-IsWithin,
  length-remove_at,
}
use pyre_wire.Asyncio.{
  Job, Pool, PoolEvent, submitted, cancelled, worked, remove_at, submit, cancel, work, work_on,
  happen,
}

-- The jobs that were submitted, in order.
abbrev pub jobs_of : {C : Type 0} → List (PoolEvent C) → List (Job C)
jobs_of [] = []
jobs_of (submitted j ∷ es) = j ∷ jobs_of es
jobs_of (cancelled k ∷ es) = jobs_of es
jobs_of (worked ∷ es) = jobs_of es

-- How often an `await` was cancelled.
abbrev pub cancels_of : {C : Type 0} → List (PoolEvent C) → ℕ
cancels_of [] = 0
cancels_of (submitted j ∷ es) = cancels_of es
cancels_of (cancelled k ∷ es) = suc (cancels_of es)
cancels_of (worked ∷ es) = cancels_of es

-- How many steps the worker takes.
abbrev pub steps_of : {C : Type 0} → List (PoolEvent C) → ℕ
steps_of [] = 0
steps_of (submitted j ∷ es) = steps_of es
steps_of (cancelled k ∷ es) = steps_of es
steps_of (worked ∷ es) = suc (steps_of es)

module _ {S C A : Type 0} (run : Job C → S → A × S) where
  -- The jobs one after another on the object, with no pool: their results, and the object.
  abbrev pub results : List (Job C) → S → List A
  results [] s = []
  results (j ∷ js) s = (run j s).0 ∷ results js (run j s).1

  abbrev pub object_after : List (Job C) → S → S
  object_after [] s = s
  object_after (j ∷ js) s = object_after js (run j s).1

  abbrev pub pool_of : List (Job C) → List A → S → Pool S C A
  pool_of w d s = record { waiting = w; done = d; object = s }

  -- Some of the jobs are done, one after another, and others wait; the rest, no more than the number of
  -- cancellations, is left out.
  abbrev pub IsSerial : ℕ → List (Job C) → S → Pool S C A → Type 0
  IsSerial cancels js s p =
      (ran : List (Job C)) × IsWithin (ran ++ p.waiting) js
      × (length js ≤ length ran + length p.waiting + cancels)
      × (p.done ≡ results ran s)
      × (p.object ≡ object_after ran s)

  pub results-append :
      (js ks : List (Job C)) (s : S)
      → results (js ++ ks) s ≡ results js s ++ results ks (object_after js s)
  results-append [] ks s = refl
  results-append (j ∷ js) ks s = rw (results-append js ks (run j s).1) refl

  pub object_after-append :
      (js ks : List (Job C)) (s : S)
      → object_after (js ++ ks) s ≡ object_after ks (object_after js s)
  object_after-append [] ks s = refl
  object_after-append (j ∷ js) ks s = object_after-append js ks (run j s).1

  work-IsSerial :
      (n : ℕ) (js w : List (Job C)) (s : S) (d : List A) (o : S)
      → IsSerial n js s (pool_of w d o)
      → IsSerial n js s (work run (pool_of w d o))
  unfolding work work_on
  work-IsSerial n js [] s d o h = h
  work-IsSerial n js (j ∷ w) s d o (ran, all, few, done, object) = (
    ran ++ j ∷ [],
    subst (λ xs. IsWithin xs js) (sym (append_assoc ran (j ∷ []) w)) all,
    omega (arith, few, length-append ran (j ∷ [])),
    rw (results-append ran (j ∷ []) s, done, object) refl,
    rw (object_after-append ran (j ∷ []) s, object) refl,
  )

  submit-IsSerial :
      (n : ℕ) (j : Job C) (js : List (Job C)) (s : S) (p : Pool S C A)
      → IsSerial n js s p
      → IsSerial n (js ++ j ∷ []) s (submit run j p)
  unfolding submit
  submit-IsSerial n j js s p (ran, all, few, done, object) = (
    ran,
    subst (λ xs. IsWithin xs (js ++ j ∷ [])) (append_assoc ran p.waiting (j ∷ []))
        (IsWithin-append (j ∷ []) all),
    omega (arith, few, length-append js (j ∷ []), length-append p.waiting (j ∷ [])),
    done,
    object,
  )

  cancel-IsSerial :
      (n k : ℕ) (js : List (Job C)) (s : S) (p : Pool S C A)
      → IsSerial n js s p
      → IsSerial (suc n) js s (cancel run k p)
  unfolding cancel
  cancel-IsSerial n k js s p (ran, all, few, done, object) = (
    ran,
    IsWithin-trans all (ran ++ remove_at k p.waiting)
        (IsWithin-prepend ran (remove_at-IsWithin k p.waiting)),
    omega (arith, few, length-remove_at k p.waiting),
    done,
    object,
  )

  happen-IsSerial :
      (es : List (PoolEvent C)) (n : ℕ) (js : List (Job C)) (s : S) (p : Pool S C A)
      → IsSerial n js s p
      → IsSerial (n + cancels_of es) (js ++ jobs_of es) s (happen run es p)
  unfolding happen
  happen-IsSerial [] n js s p (ran, all, few, done, object) =
      rw append-nil (ran, all, omega (arith, few), done, object)
  happen-IsSerial (submitted j ∷ es) n js s p h =
      subst (λ ks. IsSerial (n + cancels_of es) ks s (happen run es (submit run j p)))
        (append_assoc js (j ∷ []) (jobs_of es))
        (happen-IsSerial es n (js ++ j ∷ []) s (submit run j p) (submit-IsSerial n j js s p h))
  happen-IsSerial (cancelled k ∷ es) n js s p h =
      let (ran, all, few, done, object) =
        happen-IsSerial es (suc n) js s (cancel run k p) (cancel-IsSerial n k js s p h) in
      (ran, all, omega (arith, few), done, object)
  happen-IsSerial (worked ∷ es) n js s p h =
      happen-IsSerial es n js s (work run p) (work-IsSerial n js p.waiting s p.done p.object h)

  -- Whatever coroutines submit and cancel, and whenever the worker runs: the jobs that are done and
  -- then those that wait are the submitted ones in their order, at most as many of them left out as
  -- there were cancellations; and the results, in that order, and the object are what they would be if
  -- the jobs that are done were called one after another without any pool.
  pub happen-serial :
      (es : List (PoolEvent C)) (s : S)
      → let p = happen run es (pool_of [] [] s) in
        (ran : List (Job C)) × IsWithin (ran ++ p.waiting) (jobs_of es)
        × (length (jobs_of es) ≤ length ran + length p.waiting + cancels_of es)
        × (p.done ≡ results ran s)
        × (p.object ≡ object_after ran s)
  happen-serial es s =
      let (ran, all, few, done, object) =
        happen-IsSerial es 0 [] s (pool_of [] [] s) ([], none_left, omega arith, refl, refl) in
      (ran, all, omega (arith, few), done, object)

  happen_grows :
      (es : List (PoolEvent C)) (w : List (Job C)) (d : List A) (s : S)
      → (rest : List A) × ((happen run es (pool_of w d s)).done ≡ d ++ rest)
  unfolding happen submit cancel work work_on
  happen_grows [] w d s = ([], sym (append-nil d))
  happen_grows (submitted j ∷ es) w d s = happen_grows es (w ++ j ∷ []) d s
  happen_grows (cancelled k ∷ es) w d s = happen_grows es (remove_at k w) d s
  happen_grows (worked ∷ es) [] d s = happen_grows es [] d s
  happen_grows (worked ∷ es) (j ∷ w) d s =
      let (rest, e) = happen_grows es w (d ++ (run j s).0 ∷ []) (run j s).1 in
      ((run j s).0 ∷ rest, e ∙ append_assoc d ((run j s).0 ∷ []) rest)

  happen_completes :
      (es : List (PoolEvent C)) (first later : List (Job C)) (d : List A) (s : S)
      → cancels_of es ≡ 0
      → length first ≤ steps_of es
      → (rest : List A) × ((happen run es (pool_of (first ++ later) d s)).done
          ≡ (d ++ results first s) ++ rest)
  unfolding happen submit work work_on
  happen_completes es [] later d s kept h = rw append-nil (happen_grows es later d s)
  happen_completes [] (j ∷ first) later d s kept h = absurd (omega (arith, h))
  happen_completes (submitted k ∷ es) (j ∷ first) later d s kept h =
      subst
        (λ w.
          (rest : List A) × ((happen run es (pool_of w d s)).done
            ≡ (d ++ results (j ∷ first) s) ++ rest))
        (sym (append_assoc (j ∷ first) later (k ∷ [])))
        (happen_completes es (j ∷ first) (later ++ k ∷ []) d s kept h)
  happen_completes (cancelled k ∷ es) (j ∷ first) later d s kept h = absurd (ground (arith, kept))
  happen_completes (worked ∷ es) (j ∷ first) later d s kept h =
      rw⁻¹ (append_assoc d ((run j s).0 ∷ []) (results first (run j s).1)) (
        happen_completes es first later (d ++ (run j s).0 ∷ []) (run j s).1 kept (omega (arith, h)))

  -- A job that is submitted completes if no `await` is cancelled after it: once the worker has taken
  -- as many steps as jobs wait, itself included, whatever is submitted meanwhile, its result is there,
  -- after those of the jobs before it, and it is the one that the jobs give one after another.
  pub submit-completes :
      (j : Job C) (p : Pool S C A) (es : List (PoolEvent C))
      → cancels_of es ≡ 0
      → length p.waiting + 1 ≤ steps_of es
      → (rest : List A) × ((happen run es (submit run j p)).done
          ≡ (p.done ++ results (p.waiting ++ j ∷ []) p.object) ++ rest)
  unfolding submit
  submit-completes j p es kept h =
      subst
        (λ w.
          (rest : List A) × ((happen run es (pool_of w p.done p.object)).done
            ≡ (p.done ++ results (p.waiting ++ j ∷ []) p.object) ++ rest))
        (append-nil (p.waiting ++ j ∷ []))
        (happen_completes es (p.waiting ++ j ∷ []) [] p.done p.object kept
          (rw (length-append p.waiting (j ∷ [])) h))
