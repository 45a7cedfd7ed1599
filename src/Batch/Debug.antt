-- ===== src/Batch/Debug.antt =====
-- `optimizer_debug` of src/pyrewire/batch.py, which captures what the engine prints.
use pyre_wire.Prelude.{
  ℕ, String, List, ◌++◌, ◌≡◌, refl, ◌∙◌, false, Option, some, nat_eq, if◌then◌else◌,
}
use pyre_wire.Python.Result.{Result, ok, err, wirelog, exec_error}
use pyre_wire.Batch.{Batch}
use pyre_wire.Stdout.{System, Table, capture}
use pyre_wire.Stdout.Descriptors.{HasRoom, capture-restores}
use pyre_wire.Stdout.Pipe.{ended, Reaches-buf}
use pyre_wire.Stdout.Draining.{Collected}

-- The engine's function, which prints bytes to the file that descriptor 1 stands for, and
-- `decode("utf-8", errors="replace")`.
pub record DebugLib (W : Type 0) : Type 0 where
  pub optimizer_debug : ℕ → Option ℕ → W → List ℕ × W
  pub decode : List ℕ → String

module _ {W : Type 0} (sys : System) (lib : DebugLib W) {capacity : ℕ}
    (collect : (bytes : List ℕ) → Collected capacity bytes) where
  -- The block under `capture_c_stdout()`, and what it prints.
  unfoldable pub print_plan : Batch W → Table → (List ℕ × Batch W) × Table
  print_plan s t =
      let (bytes, w) = lib.optimizer_debug s.program.handle (t 1) s.world in
      ((bytes, record s { world = w }), t)

  -- `buf.getvalue()` is what the thread has put there.
  unfoldable pub optimizer_debug : Batch W → Table → (Result String × Batch W) × Table
  optimizer_debug s t =
      if s.closed
      then ((err (wirelog exec_error), s), t)
      else (let ((bytes, s'), t') = capture sys (print_plan s) t in
          ((ok (lib.decode (collect bytes).pipe.buf), s'), t'))

  -- `optimizer_debug` of a batch program that is open, while descriptor 1 is open and the system has
  -- three more to give: the engine prints to the write end of the pipe, once, and the result is the
  -- text of what the draining thread has put in the buffer, however the system has run it. That is
  -- what the engine printed up to some point, and all of it if the thread has come to the end of the
  -- pipe. The batch program keeps its executor and its results, and afterwards every descriptor of
  -- the process stands for what it stood for before.
  pub optimizer_debug-captures :
      (s : Batch W) (t : Table) {out : ℕ}
      → s.closed ≡ false
      → HasRoom sys t
      → t 1 ≡ some out
      → let (bytes, w) = lib.optimizer_debug s.program.handle (some sys.write_end) s.world in
        let p = (collect bytes).pipe in
        ((optimizer_debug s t).0 ≡ (ok (lib.decode p.buf), record s { world = w }))
        × (p.buf ++ p.waiting ≡ bytes)
        × (p.thread ≡ ended → p.buf ≡ bytes)
        × ((n : ℕ) → ((optimizer_debug s t).1) n ≡ t n)
  unfolding optimizer_debug print_plan capture
  optimizer_debug-captures s t open_batch room open_1 =
      let (redirected, restored) = capture-restores sys (print_plan s) t room open_1 (λ u. refl) in
      let c = collect (lib.optimizer_debug s.program.handle (some sys.write_end) s.world).0 in
      let (prefix, whole) = Reaches-buf c.run in
      (
        rw (open_batch, redirected) refl,
        prefix ∙ c.all_written,
        λ e. whole e ∙ c.all_written,
        rw open_batch restored,
      )
