-- ===== src/Tests/OfAsyncio.antt =====
-- The asyncio proxies (src/pyrewire/asyncio_session.py) of a batch program with a small engine.
use pyre_wire.Prelude.{refl, ℕ, ◌+◌, ◌≤◌, length, ◌≡◌, List, [], ◌∷◌, ◌++◌, arith}
use pyre_wire.Python.Result.{Result}
use pyre_wire.Batch.{Batch}
use pyre_wire.Asyncio.{Job, Pool, PoolEvent, submitted, cancelled, worked, call, happen, submit}
use pyre_wire.Asyncio.Calls.{BatchCall, Reply, run_batch, optimizing, loading_facts, evaluating}
use pyre_wire.Asyncio.Within.{IsWithin}
use pyre_wire.Asyncio.Serial.{
  jobs_of, cancels_of, results, object_after, pool_of, happen-serial, submit-completes,
}
use pyre_wire.Tests.OfBatch.{batch_engine, evaluated}

abbrev Answer : Type 0
Answer = Result Reply

abbrev running : Job BatchCall → Batch (List ℕ) → Answer × Batch (List ℕ)
running = run_batch batch_engine

-- Three coroutines submit, the worker runs between them, and the last call is cancelled.
abbrev events : List (PoolEvent BatchCall)
events =
    submitted (call optimizing)
    ∷ worked
    ∷ submitted (call loading_facts)
    ∷ submitted (call evaluating)
    ∷ cancelled 1
    ∷ worked
    ∷ []

happen-serial_example :
    let p = happen running events (pool_of running [] [] evaluated) in
    (ran : List (Job BatchCall)) × IsWithin (ran ++ p.waiting) (jobs_of events)
    × (length (jobs_of events) ≤ length ran + length p.waiting + cancels_of events)
    × (p.done ≡ results running ran evaluated)
    × (p.object ≡ object_after running ran evaluated)
happen-serial_example = happen-serial running events evaluated

abbrev busy : Pool (Batch (List ℕ)) BatchCall Answer
busy = record { waiting = call optimizing ∷ []; done = []; object = evaluated }

abbrev later : List (PoolEvent BatchCall)
later = worked ∷ submitted (call optimizing) ∷ worked ∷ []

submit-completes_example :
    (rest : List Answer) × ((happen running later (submit running (call evaluating) busy)).done
      ≡ ([] ++ results running (call optimizing ∷ call evaluating ∷ []) evaluated) ++ rest)
submit-completes_example = submit-completes running (call evaluating) busy later refl (omega arith)
