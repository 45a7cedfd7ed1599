-- ===== src/Stdout/Pipe.antt =====
-- The pipe of src/pyrewire/_core/stdcapture.py: the block that writes, the thread that drains, and the
-- `finally` that closes, in any order in which the system runs them. The pipe holds a number of bytes
-- that the system sets; a block that writes more waits for the thread, so what it writes goes in as
-- pieces for which there is room.
use pyre_wire.Prelude.{
  ℕ, ◌+◌, ◌≤◌, ◌≡◌, ◌≢◌, refl, sym, ap, ◌∙◌, Bool, true, false, List, [], ◌++◌, length,
  append_assoc, append-nil, arith,
}

-- `_drain`: between two reads, in `os.read`, past the loop after the end of the pipe, or past it after
-- an `OSError`.
pub data Thread : Type 0 where
  between reading ended failed : Thread

-- The bytes in the pipe, in `buf`, and all that were written; whether the write end is open, as
-- descriptor 1, and whether `r_fd` is.
pub record Pipe : Type 0 where
  pub thread : Thread
  pub waiting : List ℕ
  pub buf : List ℕ
  pub written : List ℕ
  pub write_open : Bool
  pub read_open : Bool

-- Once the thread is started.
abbrev pub started : Pipe
started = record {
  thread = between;
  waiting = [];
  buf = [];
  written = [];
  write_open = true;
  read_open = true;
}

-- What can happen next. A read that has begun goes on when its descriptor is closed.
pub data Step (capacity : ℕ) : Pipe → Pipe → Type 0 where
  -- The block writes to descriptor 1, once there is room.
  write :
      (p : Pipe) (bs : List ℕ)
      → p.write_open ≡ true
      → length p.waiting + length bs ≤ capacity
      → Step capacity p (record p { waiting = p.waiting ++ bs; written = p.written ++ bs })
  -- `os.read(r_fd, 4096)` is called.
  begin_read :
      (p : Pipe)
      → p.thread ≡ between
      → p.read_open ≡ true
      → Step capacity p (record p { thread = reading })
  -- It raises `OSError`, since `r_fd` is closed.
  fail_read :
      (p : Pipe)
      → p.thread ≡ between
      → p.read_open ≡ false
      → Step capacity p (record p { thread = failed })
  -- It returns some of the bytes.
  end_read :
      (p : Pipe) (chunk rest : List ℕ)
      → p.thread ≡ reading
      → p.waiting ≡ chunk ++ rest
      → chunk ≢ []
      → length chunk ≤ 4096
      → Step capacity p (record p { thread = between; waiting = rest; buf = p.buf ++ chunk })
  -- It returns no bytes, since there are none and nobody can write more.
  end_of_pipe :
      (p : Pipe)
      → p.thread ≡ reading
      → p.waiting ≡ []
      → p.write_open ≡ false
      → Step capacity p (record p { thread = ended })
  -- `os.dup2(saved_fd, 1)` closes the last write end.
  restore : (p : Pipe) → p.write_open ≡ true → Step capacity p (record p { write_open = false })
  -- `os.close(r_fd)`
  close_read : (p : Pipe) → p.write_open ≡ false → Step capacity p (record p { read_open = false })

pub data Reaches (capacity : ℕ) (p : Pipe) : Pipe → Type 0 where
  here : Reaches capacity p p
  next : {q r : Pipe} → Reaches capacity p q → Step capacity q r → Reaches capacity p r

-- No byte is lost on the way or out of order, and a thread that has come to the end has all of them.
record IsSound (p : Pipe) : Type 0 where
  in_order : p.buf ++ p.waiting ≡ p.written
  complete : p.thread ≡ ended → (p.waiting ≡ []) × (p.write_open ≡ false)

Step-IsSound : {capacity : ℕ} {p q : Pipe} → Step capacity p q → IsSound p → IsSound q
Step-IsSound (write p bs open_end fits) s = record {
  in_order = sym (append_assoc p.buf p.waiting bs) ∙ ap (λ x. x ++ bs) s.in_order;
  complete = λ e. absurd (cc (open_end, (s.complete e).1));
}
Step-IsSound (begin_read p t o) s = record { in_order = s.in_order; complete = λ e. absurd (cc e) }
Step-IsSound (fail_read p t o) s = record { in_order = s.in_order; complete = λ e. absurd (cc e) }
Step-IsSound (end_read p chunk rest t w some_bytes fits) s = record {
  in_order = append_assoc p.buf chunk rest ∙ ap (λ x. p.buf ++ x) (sym w) ∙ s.in_order;
  complete = λ e. absurd (cc e);
}
Step-IsSound (end_of_pipe p t w c) s = record { in_order = s.in_order; complete = λ e. (w, c) }
Step-IsSound (restore p o) s = record {
  in_order = s.in_order;
  complete = λ e. ((s.complete e).0, refl);
}
Step-IsSound (close_read p c) s = record { in_order = s.in_order; complete = s.complete }

Reaches-IsSound : {capacity : ℕ} {p : Pipe} → Reaches capacity started p → IsSound p
Reaches-IsSound here = record { in_order = refl; complete = λ e. absurd (cc e) }
Reaches-IsSound (next r step) = Step-IsSound step (Reaches-IsSound r)

-- However the block, the thread and the `finally` are interleaved, `buf` holds the bytes that were
-- written up to some point, in their order, and the pipe the others; and when the thread has come to
-- the end of the pipe, `buf` holds all of them.
pub Reaches-buf :
    {capacity : ℕ} {p : Pipe}
    → Reaches capacity started p
    → (p.buf ++ p.waiting ≡ p.written) × (p.thread ≡ ended → p.buf ≡ p.written)
Reaches-buf {p = p} r =
    let s = Reaches-IsSound r in
    (
      s.in_order,
      λ e. sym (append-nil p.buf) ∙ ap (λ x. p.buf ++ x) (sym (s.complete e).0) ∙ s.in_order,
    )

-- Whatever the block writes that fits in the pipe, there is a run in which the thread ends with an
-- `OSError` and nothing of it is in `buf`: the `finally` closes `r_fd` before the thread has begun to
-- read.
pub drain-may_lose :
    (capacity : ℕ) (bs : List ℕ)
    → length bs ≤ capacity
    → (p : Pipe) × Reaches capacity started p
      × (p.thread ≡ failed)
      × (p.written ≡ bs)
      × (p.buf ≡ [])
drain-may_lose capacity bs fits =
    let p1 = record started { waiting = bs; written = bs } in
    let p2 = record p1 { write_open = false } in
    let p3 = record p2 { read_open = false } in
    (
      record p3 { thread = failed },
      next
          (next (next (next here (write started bs refl (omega (arith, fits)))) (restore p1 refl))
            (close_read p2 refl))
          (fail_read p3 refl refl),
      refl,
      refl,
      refl,
    )
