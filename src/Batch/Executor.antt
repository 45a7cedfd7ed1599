-- ===== src/Batch/Executor.antt =====
-- The operations of a batch program and their executor (src/pyrewire/batch.py).
use pyre_wire.Prelude.{
  ℕ, String, ◌≡◌, ◌≢◌, refl, sym, ap, ◌∙◌, inl, inr, Bool, true, false, List, [], ◌∷◌, nat_eq,
  if◌then◌else◌, Bool-cases, arith,
}
use pyre_wire.Prelude.Int.{ℤ}
use pyre_wire.Python.Result.{Result, ok, err, wirelog, exec_error}
use pyre_wire.Python.Exec.{Exec, pure, continue, ◌>>=◌}
use pyre_wire.Batch.{
  BatchLib, Batch, Relations, check_open, call_ok, call_handle, call_code, add_result, new_result,
  optimize, ensure_executor, load_facts_from_csv, evaluate, load_all_facts, load_input_files,
}

-- The operations of a batch program.
pub data BatchOp : Type 0 where
  optimizing evaluating loading_facts loading_files : BatchOp
  loading_csv : String → String → BatchOp

-- An operation, its result left out.
abbrev pub run_op : {W : Type 0} → BatchLib W → BatchOp → Exec (Batch W) (Unit {0})
run_op lib BatchOp.optimizing = optimize lib
run_op lib BatchOp.evaluating = do k ← evaluate lib; pure tt
run_op lib BatchOp.loading_facts = load_all_facts lib
run_op lib BatchOp.loading_files = load_input_files lib
run_op lib (BatchOp.loading_csv relation path) = load_facts_from_csv lib relation path

-- Operations one after another, each whether or not the ones before it raised.
abbrev pub run_ops : {W : Type 0} → BatchLib W → List BatchOp → Batch W → Batch W
run_ops lib [] s = s
run_ops lib (op ∷ ops) s = run_ops lib ops (run_op lib op s).1

-- The operation on an open batch program that has its executor.
abbrev with_executor : {W : Type 0} → BatchLib W → BatchOp → Exec (Batch W) (Unit {0})
with_executor lib BatchOp.optimizing s = call_ok (lib.optimize s.program.handle) s
with_executor lib BatchOp.evaluating s =
    (do k ← (do h ← call_handle (lib.evaluate s.executor); add_result (new_result h)); pure tt) s
with_executor lib BatchOp.loading_facts s =
    call_code (lib.load_all_facts s.program.handle s.executor) s
with_executor lib BatchOp.loading_files s =
    call_code (lib.load_input_files s.program.handle s.executor) s
with_executor lib (BatchOp.loading_csv relation path) s =
    call_ok (lib.load_facts_from_csv s.executor relation path) s

module _ {W : Type 0} (lib : BatchLib W) where
  ensure_executor_there : (s : Batch W) → s.executor ≢ 0 → ensure_executor lib s ≡ (ok tt, s)
  unfolding ensure_executor
  ensure_executor_there s e = ground (arith, e)

  check_open_lem :
      (s : Batch W) (b : Bool)
      → s.closed ≡ b
      → check_open s ≡ (if b then (err (wirelog exec_error), s) else (ok tt, s))
  unfolding check_open
  check_open_lem s b e = ap (λ c. if c then (err (wirelog exec_error), s) else (ok tt, s)) e

  -- A closed batch program refuses an operation; one with an executor goes on to the engine's call.
  run_op_lem :
      (op : BatchOp) (s : Batch W) (b : Bool)
      → s.closed ≡ b
      → s.executor ≢ 0
      → run_op lib op s ≡ (if b then (err (wirelog exec_error), s) else with_executor lib op s)
  unfolding optimize evaluate load_all_facts load_input_files load_facts_from_csv
  run_op_lem BatchOp.optimizing s true e x = rw (check_open_lem s true e) refl
  run_op_lem BatchOp.evaluating s true e x = rw (check_open_lem s true e) refl
  run_op_lem BatchOp.loading_facts s true e x = rw (check_open_lem s true e) refl
  run_op_lem BatchOp.loading_files s true e x = rw (check_open_lem s true e) refl
  run_op_lem (BatchOp.loading_csv r p) s true e x = rw (check_open_lem s true e) refl
  run_op_lem BatchOp.optimizing s false e x = rw (check_open_lem s false e) refl
  run_op_lem BatchOp.evaluating s false e x =
      rw (check_open_lem s false e, ensure_executor_there s x) refl
  run_op_lem BatchOp.loading_facts s false e x =
      rw (check_open_lem s false e, ensure_executor_there s x) refl
  run_op_lem BatchOp.loading_files s false e x =
      rw (check_open_lem s false e, ensure_executor_there s x) refl
  run_op_lem (BatchOp.loading_csv r p) s false e x =
      rw (check_open_lem s false e, ensure_executor_there s x) refl

  -- What is there of a batch program besides its results and the engine stays.
  abbrev Stays : Batch W → Batch W → Type 0
  Stays s s' = (s'.executor ≡ s.executor) × (s'.closed ≡ s.closed) × (s'.program ≡ s.program)

  add_result-Stays : (r : Result Relations) (s : Batch W) → Stays s (add_result r s).1
  unfolding add_result
  add_result-Stays (ok x) s = (refl, refl, refl)
  add_result-Stays (err e) s = (refl, refl, refl)

  evaluated-Stays :
      (r : Result ℕ) (s : Batch W) → Stays s (continue r (λ h. add_result (new_result h)) s).1
  evaluated-Stays (ok h) s = add_result-Stays (new_result h) s
  evaluated-Stays (err e) s = (refl, refl, refl)

  dropped-Stays :
      (r : Result ℕ) (s s' : Batch W)
      → Stays s s'
      → Stays s (continue {B = Unit {0}} r (λ k. pure tt) s').1
  dropped-Stays (ok k) s s' h = h
  dropped-Stays (err e) s s' h = h

  with_executor-Stays : (op : BatchOp) (s : Batch W) → Stays s (with_executor lib op s).1
  unfolding call_ok call_handle call_code
  with_executor-Stays BatchOp.optimizing s = (refl, refl, refl)
  with_executor-Stays BatchOp.evaluating s = dropped-Stays _ s _ (evaluated-Stays _ _)
  with_executor-Stays BatchOp.loading_facts s = (refl, refl, refl)
  with_executor-Stays BatchOp.loading_files s = (refl, refl, refl)
  with_executor-Stays (BatchOp.loading_csv r p) s = (refl, refl, refl)

  run_op-Stays : (op : BatchOp) (s : Batch W) → s.executor ≢ 0 → Stays s (run_op lib op s).1
  run_op-Stays op s x = elim (Bool-cases s.closed) [
    | inl e ↦ rw (run_op_lem op s true e x) (refl, refl, refl)
    | inr e ↦ rw (run_op_lem op s false e x) (with_executor-Stays op s)
  ]

  -- A closed batch program refuses every operation with an `ExecError`, changes nothing and calls
  -- nothing.
  pub run_op-closed :
      (op : BatchOp) (s : Batch W)
      → s.closed ≡ true
      → run_op lib op s ≡ (err (wirelog exec_error), s)
  unfolding optimize evaluate load_all_facts load_input_files load_facts_from_csv
  run_op-closed BatchOp.optimizing s e = rw (check_open_lem s true e) refl
  run_op-closed BatchOp.evaluating s e = rw (check_open_lem s true e) refl
  run_op-closed BatchOp.loading_facts s e = rw (check_open_lem s true e) refl
  run_op-closed BatchOp.loading_files s e = rw (check_open_lem s true e) refl
  run_op-closed (BatchOp.loading_csv r p) s e = rw (check_open_lem s true e) refl

  -- The same engine with another function to create executors.
  abbrev pub creating : (ℕ → W → (ℕ × ℤ) × W) → BatchLib W
  creating c = record lib { executor_create = c }

module _ {W : Type 0} (lib : BatchLib W) (c : ℕ → W → (ℕ × ℤ) × W) where
  with_executor-creating :
      (op : BatchOp) (s : Batch W) → with_executor lib op s ≡ with_executor (creating lib c) op s
  with_executor-creating BatchOp.optimizing s = refl
  with_executor-creating BatchOp.evaluating s = refl
  with_executor-creating BatchOp.loading_facts s = refl
  with_executor-creating BatchOp.loading_files s = refl
  with_executor-creating (BatchOp.loading_csv r p) s = refl

  run_op-creating :
      (op : BatchOp) (s : Batch W) → s.executor ≢ 0 → run_op lib op s ≡ run_op (creating lib c) op s
  run_op-creating op s x = elim (Bool-cases s.closed) [
    | inl e ↦ run_op_lem lib op s true e x ∙ sym (run_op_lem (creating lib c) op s true e x)
    | inr e ↦
        run_op_lem lib op s false e x
        ∙ with_executor-creating op s
        ∙ sym (run_op_lem (creating lib c) op s false e x)
  ]

  -- Once a batch program has an executor, whatever operations follow, it is the one that they use and
  -- no other is created: the executor is the same after them, and they would do the same with an
  -- engine that creates executors in any other way.
  pub run_ops-creating :
      (ops : List BatchOp) (s : Batch W)
      → s.executor ≢ 0
      → ((run_ops lib ops s).executor ≡ s.executor)
        × (run_ops lib ops s ≡ run_ops (creating lib c) ops s)
  run_ops-creating [] s x = (refl, refl)
  run_ops-creating (op ∷ ops) s x =
      let (stays, _, _) = run_op-Stays lib op s x in
      let (same, other) = run_ops-creating ops (run_op lib op s).1 (λ e. x (sym stays ∙ e)) in
      (same ∙ stays, other ∙ ap (λ y. run_ops (creating lib c) ops y.1) (run_op-creating op s x))
