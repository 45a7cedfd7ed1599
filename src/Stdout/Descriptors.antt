-- ===== src/Stdout/Descriptors.antt =====
-- src/pyrewire/_core/stdcapture.py: what the process's descriptors stand for around a captured block.
use pyre_wire.Prelude.{ℕ, ◌≡◌, ◌∙◌, ap, Option, none, some, nat_eq, arith}
use pyre_wire.Callbacks.{at}
use pyre_wire.Stdout.{System, Table, dup2, close_fd, begin_capture, end_capture, capture}

-- A descriptor is left for `os.dup`, and then two for `os.pipe`.
abbrev pub HasRoom : System → Table → Type 0
HasRoom sys t =
    let t1 = at t (sys.unused t) (t 1) in
    let t2 = at t1 (sys.unused t1) (some sys.read_end) in
    (t (sys.unused t) ≡ none) × ((t1 (sys.unused t1) ≡ none) × (t2 (sys.unused t2) ≡ none))

-- The pipe of `begin_capture` and the copy of descriptor 1 are told apart from one another and from 1.
module _ (t : Table) (s r w y : ℕ) {x : ℕ} (z : Option ℕ) where
  redirected :
      t 1 ≡ some x
      → t s ≡ none
      → at (at t s (t 1)) r (some y) w ≡ none
      → close_fd w (dup2 w 1 (at (at (at t s (t 1)) r (some y)) w z)) 1 ≡ z
  redirected open_1 free_s free_w = ground arith

  restored :
      t 1 ≡ some x
      → t s ≡ none
      → at t s (t 1) r ≡ none
      → at (at t s (t 1)) r (some y) w ≡ none
      → (n : ℕ)
      → close_fd r
          (close_fd s (dup2 s 1 (close_fd w (dup2 w 1 (at (at (at t s (t 1)) r (some y)) w z)))))
          n
        ≡ t n
  restored open_1 free_s free_r free_w n = ground arith

module _ (sys : System) {A : Type 0} (body : Table → A × Table) (t : Table) {out : ℕ} where
  -- While descriptor 1 is open and the system has three more to give, the block of
  -- `capture_c_stdout` runs with descriptor 1 as the write end of the pipe. When the block leaves the
  -- descriptors as it finds them, by a value or an exception, every descriptor stands afterwards for
  -- what it stood for before: 1 for the process's output, and neither the copy of it nor an end of
  -- the pipe is left open.
  pub capture-restores :
      HasRoom sys t
      → t 1 ≡ some out
      → ((u : Table) → (body u).1 ≡ u)
      → (((begin_capture sys t).1) 1 ≡ some sys.write_end)
        × ((n : ℕ) → ((capture sys body t).1) n ≡ t n)
  unfolding capture begin_capture end_capture
  capture-restores (free_copy, (free_r, free_w)) open_1 quiet =
      let copy = sys.unused t in
      let t1 = at t copy (t 1) in
      let r = sys.unused t1 in
      let t2 = at t1 r (some sys.read_end) in
      let w = sys.unused t2 in
      (
        redirected t copy r w sys.read_end (some sys.write_end) open_1 free_copy free_w,
        λ n.
            ap (λ u. end_capture (begin_capture sys t).0 u n) (quiet (begin_capture sys t).1)
            ∙ restored t copy r w sys.read_end (some sys.write_end) open_1 free_copy free_r free_w
                n,
      )
