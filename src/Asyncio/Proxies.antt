-- ===== src/Asyncio/Proxies.antt =====
-- The life of a proxy (src/pyrewire/asyncio_session.py): requests outside of `async with`, `aclose`
-- and `__aexit__`.
use pyre_wire.Prelude.{
  append-nil, append_assoc, Bool-cases, inl, inr, ◌≡◌, refl, sym, subst, ap, ap₂, ◌∙◌, true, false,
  List, [], ◌∷◌, ◌++◌, if◌then◌else◌,
}
use pyre_wire.Python.Result.{ok, err, runtime_error}
use pyre_wire.Asyncio.{
  Job, Pool, Proxy, submit, work, work_on, work_through, request, aclose, aexit, close_on_worker,
}
use pyre_wire.Asyncio.Serial.{results, object_after, pool_of, object_after-append}

module _ {S C A : Type 0} (run : Job C → S → A × S) where
  -- A pool that has no job left: those that waited have run, in order.
  abbrev pub worked_off : Pool S C A → Pool S C A
  worked_off p =
      pool_of run [] (p.done ++ results run p.waiting p.object)
        (object_after run p.waiting p.object)

  work_through_lem :
      (w : List (Job C)) (d : List A) (s : S)
      → work_through run w (pool_of run w d s) ≡ worked_off (pool_of run w d s)
  unfolding work_through work work_on
  work_through_lem [] d s = rw append-nil refl
  work_through_lem (j ∷ w) d s =
      work_through_lem w (d ++ (run j s).0 ∷ []) (run j s).1
      ∙ ap (λ e. pool_of run [] e (object_after run w (run j s).1))
          (append_assoc d ((run j s).0 ∷ []) (results run w (run j s).1))

  -- A proxy that does nothing more, and refuses calls.
  abbrev IsShut : Proxy S C A → Type 0
  IsShut x = (aclose run x ≡ x) × ((c : C) → request run c x ≡ (err runtime_error, x))

  request-closed :
      (c : C) (x : Proxy S C A) → x.closed ≡ true → request run c x ≡ (err runtime_error, x)
  unfolding request
  request-closed c x e = elim (Bool-cases x.entered) [
    | inl inside ↦ rw (inside, e) refl
    | inr outside ↦ rw outside refl
  ]

  aclose-closed : (x : Proxy S C A) → x.closed ≡ true → aclose run x ≡ x
  unfolding aclose
  aclose-closed x e =
      ap
        (λ b.
          if b
          then x
          else record x { closed = true; pool = work_through run x.pool.waiting x.pool })
        e

  IsShut-closed : (x : Proxy S C A) → x.closed ≡ true → IsShut x
  IsShut-closed x e = (aclose-closed x e, λ c. request-closed c x e)

  aclose-open :
      (x : Proxy S C A)
      → x.closed ≡ false
      → aclose run x ≡ record x { closed = true; pool = worked_off x.pool }
  unfolding aclose
  aclose-open x e =
      ap
        (λ b.
          if b
          then x
          else record x { closed = true; pool = work_through run x.pool.waiting x.pool })
        e
      ∙ ap (λ p. record x { closed = true; pool = p })
          (work_through_lem x.pool.waiting x.pool.done x.pool.object)

  -- `aclose` of a proxy whose pool is open: the calls that were submitted all run, in order, and the
  -- pool is shut down. A second `aclose` does nothing, and a call is a `RuntimeError` and is not
  -- submitted.
  pub aclose-shuts :
      (x : Proxy S C A)
      → x.closed ≡ false
      → let x' = aclose run x in
        (x'.pool ≡ worked_off x.pool)
        × (aclose run x' ≡ x')
        × ((c : C) → request run c x' ≡ (err runtime_error, x'))
  aclose-shuts x e =
      let (again, refused) = IsShut-closed (aclose run x) (ap (λ y. y.closed) (aclose-open x e)) in
      (ap (λ y. y.pool) (aclose-open x e), again, refused)

  close_on_worker_lem :
      (p : Pool S C A) → close_on_worker run p ≡ worked_off (submit run Job.close_inner p)
  unfolding close_on_worker submit
  close_on_worker_lem p = work_through_lem (p.waiting ++ Job.close_inner ∷ []) p.done p.object

  -- The pool of an open proxy as `__aexit__` leaves it.
  abbrev closed_off : Pool S C A → Pool S C A
  closed_off p = worked_off (submit run Job.close_inner p)

  worked_off_twice : (p : Pool S C A) → worked_off (worked_off p) ≡ worked_off p
  worked_off_twice p =
      ap (λ d. pool_of run [] d (object_after run p.waiting p.object))
        (append-nil (p.done ++ results run p.waiting p.object))

  aexit-open :
      (x : Proxy S C A)
      → x.entered ≡ true
      → x.closed ≡ false
      → aexit run x ≡ (ok tt, record x { closed = true; pool = closed_off x.pool })
  unfolding aexit submit
  aexit-open x inside shut =
      ap₂
        (λ b c.
          if b
          then (if c
              then (err runtime_error, x)
              else (ok tt, aclose run (record x { pool = close_on_worker run x.pool })))
          else (ok tt, aclose run x))
        inside shut
      ∙ ap (λ y. (ok tt, y)) (aclose-open (record x { pool = close_on_worker run x.pool }) shut)
      ∙ ap (λ p. (ok tt, record x { closed = true; pool = p }))
          (ap worked_off (close_on_worker_lem x.pool)
            ∙ worked_off_twice (submit run Job.close_inner x.pool))

  -- Leaving `async with`: the calls that were submitted run, in order, then the object is closed on the
  -- worker, and the pool is shut down.
  pub aexit-closes :
      (x : Proxy S C A)
      → x.entered ≡ true
      → x.closed ≡ false
      → let (r, x') = aexit run x in
        (r ≡ ok tt)
        × (x'.closed ≡ true)
        × (x'.pool.waiting ≡ [])
        × (x'.pool.object ≡ (run Job.close_inner (object_after run x.pool.waiting x.pool.object)).1)
  unfolding submit
  aexit-closes x inside shut =
      let e = aexit-open x inside shut in
      (
        ap (λ y. y.0) e,
        ap (λ y. y.1.closed) e,
        ap (λ y. y.1.pool.waiting) e,
        ap (λ y. y.1.pool.object) e
            ∙ object_after-append run x.pool.waiting (Job.close_inner ∷ []) x.pool.object,
      )

  -- `aclose` inside of `async with`, and then leaving it: a `RuntimeError`, and the object is not
  -- closed.
  pub aexit-aclose :
      (x : Proxy S C A)
      → x.entered ≡ true
      → x.closed ≡ false
      → let x' = aclose run x in
        (aexit run x' ≡ (err runtime_error, x'))
        × (x'.pool.object ≡ object_after run x.pool.waiting x.pool.object)
  unfolding aexit
  aexit-aclose x inside shut =
      subst
        (λ x'.
          (aexit run x' ≡ (err runtime_error, x'))
          × (x'.pool.object ≡ object_after run x.pool.waiting x.pool.object))
        (sym (aclose-open x shut)) (rw inside refl, refl)
