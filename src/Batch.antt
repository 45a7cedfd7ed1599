-- ===== src/Batch.antt =====
-- src/pyrewire/batch.py: `BatchProgram`, and the results that it hands out. The program object and
-- the results are shared with the caller, so the results are a heap beside the batch program.
pub mod Closing
pub mod Csv
pub mod Debug
pub mod Executor
pub mod Results
use pyre_wire.Prelude.{
  ℕ, ◌+◌, String, Bool, true, false, Option, none, some, List, [], ◌∷◌, ◌==◌, nat_eq, if◌then◌else◌,
}
use pyre_wire.Prelude.Int.{ℤ, pos, int_eq}
use pyre_wire.Python.Result.{Exc, Result, ok, err, wirelog, exec_error}
use pyre_wire.Python.Exec.{Exec, pure, raise, lift, modify, ◌>>=◌, ◌>>◌}
use pyre_wire.Errors.{check}
use pyre_wire.Callbacks.{at}
use pyre_wire.Program.{Program, ProgramLib}

-- The functions `wirelog_*` that this module calls, over the engine's state. Where the engine has an
-- out-parameter `rc`, it comes with the result.
pub record BatchLib (W : Type 0) : Type 0 where
  pub optimize : ℕ → W → (Bool × ℤ) × W
  pub executor_create : ℕ → W → (ℕ × ℤ) × W
  pub executor_free : ℕ → W → W
  pub load_facts_from_csv : ℕ → String → String → W → (Bool × ℤ) × W
  pub evaluate : ℕ → W → (ℕ × ℤ) × W
  pub load_all_facts : ℕ → ℕ → W → ℤ × W
  pub load_input_files : ℕ → ℕ → W → ℤ × W
  pub result_free : ℕ → W → W
  pub cardinality : ℕ → String → W → ℤ × W
  pub write_csv : ℕ → String → String → W → (Bool × ℤ) × W
  pub program : ProgramLib W

-- An object `Result`: its handle, and whether it is closed.
pub record Relations : Type 0 where
  pub handle : ℕ
  pub closed : Bool

-- A `BatchProgram` with the results that it has handed out, and the engine.
pub record Batch (W : Type 0) : Type 0 where
  pub program : Program
  -- 0 where there is no executor yet.
  pub executor : ℕ
  pub closed : Bool
  pub results : ℕ → Relations
  pub next_result : ℕ
  pub world : W

-- What `_raise_exec(rc)` raises: what `check` does, and an `ExecError` where that lets the code pass.
unfoldable pub exec_failure : ℤ → Exc
exec_failure rc =
    if rc == pos 0
    then wirelog exec_error
    else elim (check rc) [ ok _ ↦ wirelog exec_error | err e ↦ e ]

-- `_raise_exec(rc)`, in a method that would return an `A`.
abbrev pub raise_exec : {A : Type 0} → ℤ → Result A
raise_exec rc = err (exec_failure rc)

-- `Result(handle, program)`
unfoldable pub new_result : ℕ → Result Relations
new_result h =
    if h == 0 then err (wirelog exec_error) else ok (record { handle = h; closed = false })

module _ {W : Type 0} where
  -- `BatchProgram(program)`
  unfoldable pub new_batch : Program → W → Batch W
  new_batch p w = record {
    program = p;
    executor = 0;
    closed = false;
    results = λ k. record { handle = 0; closed = true };
    next_result = 0;
    world = w;
  }

  -- `_check_open`
  unfoldable pub check_open : Exec (Batch W) (Unit {0})
  check_open s = if s.closed then (err (wirelog exec_error), s) else (ok tt, s)

  -- A call of the engine that returns whether it worked, with a code.
  unfoldable pub call_ok : (W → (Bool × ℤ) × W) → Exec (Batch W) (Unit {0})
  call_ok f s =
      let ((worked, rc), w) = f s.world in
      (if worked then ok tt else raise_exec rc, record s { world = w })

  -- A call of the engine that returns a handle, 0 where it did not work, with a code.
  unfoldable pub call_handle : (W → (ℕ × ℤ) × W) → Exec (Batch W) ℕ
  call_handle f s =
      let ((h, rc), w) = f s.world in
      (if h == 0 then raise_exec rc else ok h, record s { world = w })

  -- A call of the engine that returns a code.
  unfoldable pub call_code : (W → ℤ × W) → Exec (Batch W) (Unit {0})
  call_code f s =
      let (rc, w) = f s.world in (if rc == pos 0 then ok tt else check rc, record s { world = w })

  -- The caller gets the new result, by its key.
  unfoldable pub add_result : Result Relations → Exec (Batch W) ℕ
  add_result (err e) s = (err e, s)
  add_result (ok x) s =
      let k = s.next_result in (ok k, record s { results = at s.results k x; next_result = k + 1 })

module _ {W : Type 0} (lib : BatchLib W) where
  -- `BatchProgram.from_string(source)`
  unfoldable pub batch_from_string : String → W → Result (Batch W) × W
  batch_from_string source w =
      let (p, w') = pyre_wire.Program.from_string lib.program source w in
      (elim p [ ok x ↦ ok (new_batch x w') | err e ↦ err e ], w')

  -- `BatchProgram.from_file(path)`, with what reading the file gives.
  unfoldable pub batch_from_file : Result String → W → Result (Batch W) × W
  batch_from_file (ok text) w = batch_from_string text w
  batch_from_file (err e) w = (err e, w)

  unfoldable pub optimize : Exec (Batch W) (Unit {0})
  optimize s = (do check_open; call_ok (lib.optimize s.program.handle)) s

  -- `_ensure_executor`
  unfoldable pub ensure_executor : Exec (Batch W) (Unit {0})
  ensure_executor s =
      if s.executor == 0
      then ((do
        h ← call_handle (lib.executor_create s.program.handle)
        modify (λ s'. record s' { executor = h }))
          s)
      else (ok tt, s)

  -- `load_facts_from_csv(relation, csv_path)`
  unfoldable pub load_facts_from_csv : String → String → Exec (Batch W) (Unit {0})
  load_facts_from_csv relation path = do
    check_open
    ensure_executor
    (λ s. call_ok (lib.load_facts_from_csv s.executor relation path) s)

  unfoldable pub evaluate : Exec (Batch W) ℕ
  evaluate = do
    check_open
    ensure_executor
    h ← (λ s. call_handle (lib.evaluate s.executor) s)
    add_result (new_result h)

  unfoldable pub load_all_facts : Exec (Batch W) (Unit {0})
  load_all_facts = do
    check_open
    ensure_executor
    (λ s. call_code (lib.load_all_facts s.program.handle s.executor) s)

  unfoldable pub load_input_files : Exec (Batch W) (Unit {0})
  load_input_files = do
    check_open
    ensure_executor
    (λ s. call_code (lib.load_input_files s.program.handle s.executor) s)

  -- `close` past its guard: the executor goes before the program.
  unfoldable pub release_batch : Batch W → Batch W
  release_batch s =
      let w = if s.executor == 0 then s.world else lib.executor_free s.executor s.world in
      let (p, w') = pyre_wire.Program.close lib.program s.program w in
      record s { executor = 0; program = p; closed = true; world = w' }

  unfoldable pub close_batch : Batch W → Batch W
  close_batch s = if s.closed then s else release_batch s
