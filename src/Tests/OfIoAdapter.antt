-- ===== src/Tests/OfIoAdapter.antt =====
-- The callbacks and the registry of adapters (src/pyrewire/io_adapter.py) at concrete inputs.
use pyre_wire.Prelude.{
  inr, ℕ, suc, ◌<◌, ◌≡◌, String, refl, true, some, List, [], ◌∷◌, arith, nat_eq, string_eq,
}
use pyre_wire.Prelude.Int.{pos, int_eq}
use pyre_wire.Prelude.Dict.{Dict, lookup, insert, erase, lookup-insert, lookup-erase}
use pyre_wire.Python.Result.{ok, err, traverse, overflow_error}
use pyre_wire.Python.Float.{int_of_float, is_finite, fraction}
use pyre_wire.Python.Words.{c_int64, mask64, signed64}
use pyre_wire.Python.Value.{Number, int_of}
use pyre_wire.Session.Rows.RowMajor.{stored_row}
use pyre_wire.IoAdapter.{
  Adapters, AdapterLib, Buffer, Malloc, AdapterStruct, read_callback, returned, raised,
  write_message, register_adapter,
}
use pyre_wire.IoAdapter.Messages.{write_message-fits}
use pyre_wire.IoAdapter.Reading.{IsRows, read_callback-delivers}
use pyre_wire.IoAdapter.Stopping.{read_callback-StopsWith}
use pyre_wire.IoAdapter.Registry.{AdapterEngine, KeptAlive, register_adapter-KeptAlive}

-- A `malloc` whose state is the number of blocks that it has given.
abbrev malloc : Malloc ℕ
malloc size w = ((4096, λ i. pos 7), suc w)

abbrev wide_row : List Number
wide_row = Number.int (pos 3) ∷ Number.int (pos 4) ∷ []

wide_row_stored : traverse stored_row (wide_row ∷ []) ≡ ok ((pos 3 ∷ pos 4 ∷ []) ∷ [])
unfolding int_of c_int64 mask64 signed64
wide_row_stored = refl

read_callback-delivers_example :
    (b : Buffer) × (read_callback malloc 2 (ok (wide_row ∷ [])) 0 ≡ (returned (pos 0) (some b), 1))
    × IsRows 4096 2 ((pos 3 ∷ pos 4 ∷ []) ∷ []) b
read_callback-delivers_example =
    read_callback-delivers malloc 2 wide_row [] ((pos 3 ∷ pos 4 ∷ []) ∷ []) 0 1 4096 (λ i. pos 7)
      refl (ground arith) (omega arith) (refl, tt) wide_row_stored

-- The bits of an infinity.
abbrev infinity : Number
infinity = Number.float 9218868437227405312

abbrev infinite_row : List Number
infinite_row = infinity ∷ Number.int (pos 4) ∷ []

infinite_row_refused : stored_row infinite_row ≡ err overflow_error
unfolding int_of int_of_float is_finite fraction
infinite_row_refused = refl

-- The row before it can be stored.
read_callback-StopsWith_example :
    read_callback malloc 2 (ok (wide_row ∷ infinite_row ∷ [])) 0 ≡ (raised overflow_error, 1)
read_callback-StopsWith_example =
    read_callback-StopsWith malloc 2 (wide_row ∷ []) infinite_row [] ((pos 3 ∷ pos 4 ∷ []) ∷ []) 0 1
      4096 (λ i. pos 7) (raised overflow_error) refl (ground arith) (refl, tt) wide_row_stored
      (inr (overflow_error, refl, infinite_row_refused, refl))

abbrev message : List ℕ
message = 98 ∷ 97 ∷ 100 ∷ []

-- A buffer of three bytes has room for two of the message.
write_message-fits_example :
    (2 < 3)
    × (1 < 2 → write_message message true 3 (λ i. 255) 1 ≡ 97)
    × (write_message message true 3 (λ i. 255) 2 ≡ 0)
    × (2 < 1 → write_message message true 3 (λ i. 255) 1 ≡ 255)
write_message-fits_example = write_message-fits message 3 (λ i. 255) 1 (ground arith)

-- An engine whose state is its registrations, and which takes every structure.
abbrev Registrations : Type 0
Registrations = Dict String (AdapterStruct ℕ)

abbrev adapters : AdapterLib ℕ Registrations
adapters = record {
  register = λ r w. (pos 0, insert r.scheme r w);
  unregister = λ scheme w. (pos 0, erase scheme w);
  has_validate = λ i. true;
}

abbrev taking : AdapterEngine ℕ Registrations
taking = record {
  lib = adapters;
  refers = λ w scheme. lookup scheme w;
  registers = λ r w scheme. lookup-insert r.scheme scheme r w;
  unregisters = λ gone w scheme. lookup-erase gone scheme w;
}

abbrev no_adapters : Adapters ℕ Registrations
no_adapters = record { registry = []; world = [] }

no_adapters-KeptAlive : KeptAlive taking no_adapters
unfolding KeptAlive lookup
no_adapters-KeptAlive scheme x h = absurd (cc h)

register_adapter-KeptAlive_example :
    KeptAlive taking (register_adapter adapters "mem" "" (ok 5) no_adapters).1
register_adapter-KeptAlive_example =
    register_adapter-KeptAlive taking "mem" "" (ok 5) no_adapters no_adapters-KeptAlive
