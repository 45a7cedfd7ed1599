-- ===== src/Stdout.antt =====
-- src/pyrewire/_core/stdcapture.py: the process's file descriptors while the engine's output is
-- captured. The thread that drains the pipe is in Pipe; it does not change what a descriptor is.
pub mod Descriptors
pub mod Pipe
pub mod Draining
use pyre_wire.Prelude.{ℕ, Option, none, some, ◌==◌, nat_eq, if◌then◌else◌}
use pyre_wire.Callbacks.{at}

-- The open file that each descriptor of the process stands for.
abbrev pub Table : Type 0
Table = ℕ → Option ℕ

-- How the system chooses a new descriptor, and the two ends of a new pipe.
pub record System : Type 0 where
  pub unused : Table → ℕ
  pub read_end : ℕ
  pub write_end : ℕ

-- What `capture_c_stdout` keeps for its end.
pub record Saved : Type 0 where
  pub saved_fd : ℕ
  pub r_fd : ℕ

-- `os.dup2(from, to)`
abbrev pub dup2 : ℕ → ℕ → Table → Table
dup2 source target t = at t target (t source)

-- `os.close(fd)`
abbrev pub close_fd : ℕ → Table → Table
close_fd fd t = at t fd none

module _ (sys : System) where
  -- `saved_fd = os.dup(1)`
  abbrev pub dup_stdout : Table → ℕ × Table
  dup_stdout t = let fd = sys.unused t in (fd, at t fd (t 1))

  -- `r_fd, w_fd = os.pipe()`
  abbrev pub open_pipe : Table → (ℕ × ℕ) × Table
  open_pipe t =
      let r = sys.unused t in
      let t' = at t r (some sys.read_end) in
      let w = sys.unused t' in ((r, w), at t' w (some sys.write_end))

  -- Up to `yield buf`.
  unfoldable pub begin_capture : Table → Saved × Table
  begin_capture t =
      let (saved, t1) = dup_stdout t in
      let ((r, w), t2) = open_pipe t1 in
      (record { saved_fd = saved; r_fd = r }, close_fd w (dup2 w 1 t2))

-- The `finally`.
unfoldable pub end_capture : Saved → Table → Table
end_capture x t = close_fd x.r_fd (close_fd x.saved_fd (dup2 x.saved_fd 1 t))

-- `capture_c_stdout()` around a block that returns a value or an exception.
unfoldable pub capture : {A : Type 0} → System → (Table → A × Table) → Table → A × Table
capture sys body t =
    let (x, t1) = begin_capture sys t in let (a, t2) = body t1 in (a, end_capture x t2)
