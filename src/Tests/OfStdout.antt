-- ===== src/Tests/OfStdout.antt =====
-- The descriptors around a captured block (src/pyrewire/_core/stdcapture.py), and a captured text
-- (src/pyrewire/batch.py).
use pyre_wire.Prelude.{
  ℕ, ◌≡◌, refl, none, some, nat_eq, if◌then◌else◌, List, [], ◌∷◌, ◌++◌, false, arith, length, ◌==◌,
}
use pyre_wire.Prelude.{ltb}
use pyre_wire.Stdout.{System, Table}
use pyre_wire.Python.Result.{ok}
use pyre_wire.Batch.Debug.{DebugLib, optimizer_debug, optimizer_debug-captures}
use pyre_wire.Stdout.Pipe.{
  Pipe, started as started_pipe, reading, ended, failed, write, begin_read, end_read, end_of_pipe,
  restore, Reaches, here, next, Reaches-buf, drain-may_lose,
}
use pyre_wire.Stdout.Draining.{Collected, collect_all}
use pyre_wire.Tests.OfBatch.{evaluated}

-- Descriptors 0, 1 and 2 are open.
abbrev started : Table
started n = if ltb n 3 then some n else none

-- The lowest of the first descriptors that is closed.
abbrev lowest : System
lowest = record {
  unused = λ t. elim (t 3) as (λ o. ℕ) [
    | none ↦ 3
    | some x ↦ elim (t 4) as (λ o. ℕ) [ none ↦ 4 | some y ↦ 5 ]
  ];
  read_end = 8;
  write_end = 9;
}

-- It notes which file it prints to.
abbrev noting : DebugLib (List ℕ)
noting = record {
  optimizer_debug =
      λ h o w. (104 ∷ 105 ∷ [], elim o as (λ x. List ℕ) [ none ↦ w | some file ↦ file ∷ w ]);
  decode = λ bytes. if length bytes == 2 then "hi" else "";
}

-- Runs in which nothing is lost, with a pipe of the usual size.
abbrev collect : (bytes : List ℕ) → Collected 65536 bytes
collect bytes = (collect_all 65536 (omega arith) bytes).0

optimizer_debug-captures_example :
    let p = (collect (104 ∷ 105 ∷ [])).pipe in
    ((optimizer_debug lowest noting collect evaluated started).0
      ≡ (ok (noting.decode p.buf), record evaluated { world = 9 ∷ evaluated.world }))
    × (p.buf ++ p.waiting ≡ 104 ∷ 105 ∷ [])
    × (p.thread ≡ ended → p.buf ≡ 104 ∷ 105 ∷ [])
    × ((n : ℕ) → ((optimizer_debug lowest noting collect evaluated started).1) n ≡ started n)
optimizer_debug-captures_example =
    optimizer_debug-captures lowest noting collect evaluated started refl (refl, (refl, refl)) refl

abbrev printed : Pipe
printed = record started_pipe { waiting = 104 ∷ 105 ∷ []; written = 104 ∷ 105 ∷ [] }

abbrev read_all : Pipe
read_all = record printed { waiting = []; buf = 104 ∷ 105 ∷ [] }

abbrev finished : Pipe
finished = record read_all { thread = ended; write_open = false }

drained : Reaches 65536 started_pipe finished
drained =
    next
      (next
        (next
          (next
            (next (next here (write started_pipe (104 ∷ 105 ∷ []) refl (omega arith)))
              (begin_read printed refl refl))
            (end_read (record printed { thread = reading }) (104 ∷ 105 ∷ []) [] refl refl
              (λ e. cc e) (omega arith)))
          (begin_read read_all refl refl))
        (restore (record read_all { thread = reading }) refl))
      (end_of_pipe (record read_all { thread = reading; write_open = false }) refl refl refl)

Reaches-buf_example :
    (finished.buf ++ finished.waiting ≡ finished.written)
    × (finished.thread ≡ ended → finished.buf ≡ finished.written)
Reaches-buf_example = Reaches-buf drained

drain-may_lose_example :
    (p : Pipe) × Reaches 65536 started_pipe p
    × (p.thread ≡ failed)
    × (p.written ≡ 104 ∷ 105 ∷ [])
    × (p.buf ≡ [])
drain-may_lose_example = drain-may_lose 65536 (104 ∷ 105 ∷ []) (omega arith)

collect_all_example : (c : Collected 65536 (104 ∷ 105 ∷ [])) × (c.pipe.buf ≡ 104 ∷ 105 ∷ [])
collect_all_example = collect_all 65536 (omega arith) (104 ∷ 105 ∷ [])
