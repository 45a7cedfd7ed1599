-- ===== src/Asyncio/Calls.antt =====
-- The methods of the proxies (src/pyrewire/asyncio_session.py): the call of the synchronous object
-- that each submits, and what it returns.
use pyre_wire.Prelude.{ℕ, String, Bool, true, Option, none, some, List, if◌then◌else◌}
use pyre_wire.Prelude.Int.{ℤ}
use pyre_wire.Python.Result.{Result, ok, err, value_error, runtime_error}
use pyre_wire.Python.Exec.{Exec, pure, ◌>>=◌}
use pyre_wire.Python.Value.{Value, Number}
use pyre_wire.Asyncio.{Job, Proxy, call, close_inner}
use pyre_wire.Batch.{
  Batch, BatchLib, optimize, evaluate, load_all_facts, load_input_files, close_batch,
  batch_from_string, batch_from_file,
}
use pyre_wire.EasySession.{
  EasyLib, EasySession, intern_string, easy_insert, easy_remove, insert_sym, remove_sym,
  easy_preview, insert_with_dedupe,
}
use pyre_wire.EasySession.Lifecycle.{easy_close}
use pyre_wire.Session.Lifecycle
use pyre_wire.Session.Object.{Session, SessionLib}
use pyre_wire.Session.Updates.{NumPy, NdArray, insert, remove, insert_array, remove_array}
use pyre_wire.Session.Deltas.{step}
use pyre_wire.Session.Snapshot.{snapshot}

-- `AsyncEasySession`
pub data EasyCall : Type 0 where
  interning : String → EasyCall
  inserting removing inserting_once : String → List Value → EasyCall
  inserting_symbols removing_symbols : String → List String → EasyCall
  previewing : String → EasyCall

-- `AsyncSession`; an array comes with the functions of NumPy.
pub data SessionCall : Type 0 where
  inserting_rows removing_rows : String → List (List Number) → SessionCall
  inserting_array removing_array : String → NumPy → NdArray → SessionCall
  stepping taking_snapshot : SessionCall
  previewing_facts : String → SessionCall

-- `AsyncBatchProgram`
pub data BatchCall : Type 0 where
  optimizing loading_facts loading_files evaluating : BatchCall

-- What a method returns; a result of a batch program is its key.
pub data Reply : Type 0 where
  nothing : Reply
  symbol_id : ℤ → Reply
  inserted : Bool → Reply
  rows : List (List Value) → Reply
  deltas : List (String × List ℤ × ℤ) → Reply
  tuples : List (String × List ℤ) → Reply
  result_key : ℕ → Reply

abbrev replying : {S A : Type 0} → (A → Reply) → Exec S A → Exec S Reply
replying f m = do a ← m; pure (f a)

abbrev quiet : {S A : Type 0} → Exec S A → Exec S Reply
quiet m = replying (λ a. Reply.nothing) m

module _ {W : Type 0} where
  -- A job of `AsyncEasySession` on its worker, with Python's test of a tuple in a set.
  unfoldable pub run_easy :
      (List Value → List (List Value) → Result Bool)
      → EasyLib W
      → Job EasyCall
      → EasySession W
      → Result Reply × EasySession W
  run_easy is_in lib (call (interning v)) = replying (λ n. symbol_id n) (intern_string lib v)
  run_easy is_in lib (call (inserting rel row)) = quiet (easy_insert lib rel row)
  run_easy is_in lib (call (removing rel row)) = quiet (easy_remove lib rel row)
  run_easy is_in lib (call (inserting_once rel row)) =
      replying (λ b. inserted b) (insert_with_dedupe lib is_in rel row)
  run_easy is_in lib (call (inserting_symbols rel ss)) = quiet (insert_sym lib rel ss)
  run_easy is_in lib (call (removing_symbols rel ss)) = quiet (remove_sym lib rel ss)
  run_easy is_in lib (call (previewing rel)) = replying (λ r. rows r) (easy_preview lib rel)
  run_easy is_in lib close_inner = λ s. (ok Reply.nothing, easy_close lib s)

  -- A job of `AsyncSession` on its worker.
  unfoldable pub run_session : SessionLib W → Job SessionCall → Session W → Result Reply × Session W
  run_session lib (call (inserting_rows rel rs)) = quiet (insert lib rel rs)
  run_session lib (call (removing_rows rel rs)) = quiet (remove lib rel rs)
  run_session lib (call (inserting_array rel np x)) = quiet (insert_array lib rel np x)
  run_session lib (call (removing_array rel np x)) = quiet (remove_array lib rel np x)
  run_session lib (call stepping) = replying (λ r. deltas r) (step lib)
  run_session lib (call taking_snapshot) = replying (λ r. tuples r) (snapshot lib)
  run_session lib (call (previewing_facts rel)) =
      replying (λ r. rows r) (pyre_wire.Session.Lifecycle.preview_inline_facts lib rel)
  run_session lib close_inner = quiet (pyre_wire.Session.Lifecycle.close lib)

  -- A job of `AsyncBatchProgram` on its worker.
  unfoldable pub run_batch : BatchLib W → Job BatchCall → Batch W → Result Reply × Batch W
  run_batch lib (call optimizing) = quiet (optimize lib)
  run_batch lib (call loading_facts) = quiet (load_all_facts lib)
  run_batch lib (call loading_files) = quiet (load_input_files lib)
  run_batch lib (call evaluating) = replying (λ k. result_key k) (evaluate lib)
  run_batch lib close_inner = λ s. (ok Reply.nothing, close_batch lib s)

-- Where an `AsyncBatchProgram` gets its program from.
pub data Source : Type 0 where
  src file : String → Source

-- `AsyncBatchProgram(src, file)`: exactly one of the two.
unfoldable pub source_of : Option String → Option String → Result Source
source_of (some s) none = ok (Source.src s)
source_of none (some f) = ok (Source.file f)
source_of none none = err value_error
source_of (some s) (some f) = err value_error

-- The batch program that `__aenter__` makes, with what reading a file gives.
unfoldable pub batch_of :
    {W : Type 0} → BatchLib W → (String → Result String) → Source → W → Result (Batch W) × W
batch_of lib read_text (Source.src s) w = batch_from_string lib s w
batch_of lib read_text (Source.file f) w = batch_from_file lib (read_text f) w

-- `__aenter__`, where the object was made with this result.
unfoldable pub aenter : {S C A : Type 0} → Result S → Proxy S C A → Result (Unit {0}) × Proxy S C A
aenter made x = if x.closed then (err runtime_error, x) else elim made [
  | ok s ↦ (ok tt, record x { entered = true; pool = record x.pool { object = s } })
  | err e ↦ (err e, x)
]
