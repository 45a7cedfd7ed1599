-- ===== src/Stdout/Draining.antt =====
-- The end of a capture (src/pyrewire/_core/stdcapture.py).
use pyre_wire.Prelude.{
  ℕ, ◌≤◌, ◌≡◌, refl, sym, subst, false, List, [], ◌∷◌, ◌++◌, append_assoc, append-nil, arith,
}
use pyre_wire.Stdout.Pipe.{
  Pipe, started, reading, ended, write, begin_read, end_read, end_of_pipe, restore, close_read,
  Reaches, here, next,
}

-- How the system has run the block that prints the bytes, the thread that drains the pipe and the
-- `finally`, when the capture is over.
pub record Collected (capacity : ℕ) (bytes : List ℕ) : Type 0 where
  pub pipe : Pipe
  pub run : Reaches capacity started pipe
  pub all_written : pipe.written ≡ bytes
  pub read_closed : pipe.read_open ≡ false

-- All that was written has been read.
abbrev level : List ℕ → Pipe
level bs = record started { buf = bs; written = bs }

module _ (capacity : ℕ) (room : 1 ≤ capacity) where
  level-one :
      (bs : List ℕ) (b : ℕ)
      → Reaches capacity started (level bs)
      → Reaches capacity started (level (bs ++ b ∷ []))
  level-one bs b r =
      let p = record (level bs) { waiting = b ∷ []; written = bs ++ b ∷ [] } in
      let r1 : Reaches capacity started p =
        next r (write (level bs) (b ∷ []) refl (omega (arith, room))) in
      let r2 : Reaches capacity started (record p { thread = reading }) =
        next r1 (begin_read p refl refl) in
      next r2
        (end_read (record p { thread = reading }) (b ∷ []) [] refl refl (λ e. cc e) (omega arith))

  level-all :
      (bs cs : List ℕ)
      → Reaches capacity started (level bs)
      → Reaches capacity started (level (bs ++ cs))
  level-all bs [] r = subst (λ xs. Reaches capacity started (level xs)) (sym (append-nil bs)) r
  level-all bs (c ∷ cs) r =
      subst (λ xs. Reaches capacity started (level xs)) (append_assoc bs (c ∷ []) cs)
        (level-all (bs ++ c ∷ []) cs (level-one bs c r))

  -- However much is printed and however little the pipe holds, if only it holds a byte, there is a run
  -- of the capture to its end in which nothing is lost.
  pub collect_all : (bytes : List ℕ) → (c : Collected capacity bytes) × (c.pipe.buf ≡ bytes)
  collect_all bytes =
      let p = level bytes in
      let r1 : Reaches capacity started (record p { thread = reading }) =
        next (level-all [] bytes here) (begin_read p refl refl) in
      let p2 = record p { thread = reading; write_open = false } in
      let r2 : Reaches capacity started p2 =
        next r1 (restore (record p { thread = reading }) refl) in
      let p3 = record p2 { thread = ended } in
      let r3 : Reaches capacity started p3 = next r2 (end_of_pipe p2 refl refl refl) in
      (
        record {
          pipe = record p3 { read_open = false };
          run = next r3 (close_read p3 refl);
          all_written = refl;
          read_closed = refl;
        },
        refl,
      )
