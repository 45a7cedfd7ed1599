-- ===== src/Asyncio.antt =====
-- src/pyrewire/asyncio_session.py: the proxies that run every call of an object on one worker thread.
-- A `ThreadPoolExecutor` with one worker takes the calls in the order in which they were submitted,
-- and a pool that is shut down takes no call (`RuntimeError`). When the `await` of a call is cancelled
-- while the call waits for the worker, `run_in_executor` cancels it there, and it is never made; a call
-- that the worker has taken goes on.
pub mod Calls
pub mod Proxies
pub mod Within
pub mod Serial
use pyre_wire.Prelude.{
  ℕ, ◌+◌, zero, suc, Bool, true, false, List, [], ◌∷◌, ◌++◌, length, if◌then◌else◌,
}
use pyre_wire.Python.Result.{Exc, Result, ok, err, runtime_error}

-- What the worker is given: a call of the object's method, or its `close`.
pub data Job (C : Type 0) : Type 0 where
  call : C → Job C
  close_inner : Job C

-- The pool with the object that its thread works on: the jobs that wait, the results of those that
-- are done, in the order of their submission.
pub record Pool (S C A : Type 0) : Type 0 where
  pub waiting : List (Job C)
  pub done : List A
  pub object : S

-- `_AsyncProxyBase`: whether `_inner` is set, and whether the pool has been shut down.
pub record Proxy (S C A : Type 0) : Type 0 where
  pub entered : Bool
  pub closed : Bool
  pub pool : Pool S C A

-- What happens at a pool: a coroutine submits a job, the `await` of the job with an index among those
-- that wait is cancelled, or the worker runs the next one.
pub data PoolEvent (C : Type 0) : Type 0 where
  submitted : Job C → PoolEvent C
  cancelled : ℕ → PoolEvent C
  worked : PoolEvent C

unfoldable pub remove_at : {B : Type 0} → ℕ → List B → List B
remove_at k [] = []
remove_at zero (x ∷ xs) = xs
remove_at (suc k) (x ∷ xs) = x ∷ remove_at k xs

module _ {S C A : Type 0} (run : Job C → S → A × S) where
  unfoldable pub submit : Job C → Pool S C A → Pool S C A
  submit j p = record p { waiting = p.waiting ++ j ∷ [] }

  unfoldable pub cancel : ℕ → Pool S C A → Pool S C A
  cancel k p = record p { waiting = remove_at k p.waiting }

  unfoldable pub work_on : List (Job C) → Pool S C A → Pool S C A
  work_on [] p = p
  work_on (j ∷ js) p =
      let (a, s) = run j p.object in record { waiting = js; done = p.done ++ a ∷ []; object = s }

  -- One step of the worker, which does nothing where no job waits.
  unfoldable pub work : Pool S C A → Pool S C A
  work p = work_on p.waiting p

  unfoldable pub happen : List (PoolEvent C) → Pool S C A → Pool S C A
  happen [] p = p
  happen (submitted j ∷ es) p = happen es (submit j p)
  happen (cancelled k ∷ es) p = happen es (cancel k p)
  happen (worked ∷ es) p = happen es (work p)

  -- The worker until no job of the list waits.
  unfoldable pub work_through : List (Job C) → Pool S C A → Pool S C A
  work_through [] p = p
  work_through (j ∷ js) p = work_through js (work p)

  -- `_call` of a method up to its `await`: `_need_inner` comes first, and then the pool.
  unfoldable pub request : C → Proxy S C A → Result (Unit {0}) × Proxy S C A
  request c x =
      if x.entered
      then (if x.closed
          then (err runtime_error, x)
          else (ok tt, record x { pool = submit (Job.call c) x.pool }))
      else (err runtime_error, x)

  -- `aclose`: the pool takes no more jobs, and finishes those that it has.
  unfoldable pub aclose : Proxy S C A → Proxy S C A
  aclose x =
      if x.closed then x else record x { closed = true; pool = work_through x.pool.waiting x.pool }

  -- Submitting the object's `close`, and waiting for it, while nothing is cancelled.
  unfoldable pub close_on_worker : Pool S C A → Pool S C A
  close_on_worker p = let p' = submit Job.close_inner p in work_through p'.waiting p'

  -- `__aexit__`
  unfoldable pub aexit : Proxy S C A → Result (Unit {0}) × Proxy S C A
  aexit x =
      if x.entered
      then (if x.closed
          then (err runtime_error, x)
          else (ok tt, aclose (record x { pool = close_on_worker x.pool })))
      else (ok tt, aclose x)
