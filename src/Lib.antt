-- ===== src/Lib.antt =====
-- PyreWire: what the Python wrapper around the Datalog engine libwirelog does with the values, the
-- codes and the calls that cross the boundary between the two.
--
-- The program. `pyrewire.program` parses a program with the engine and reads its schemas and its
-- inline facts; `pyrewire.batch` evaluates one as a whole and reads the relations of the result.
-- `pyrewire.session` opens a session on a program: it sends rows, runs the program and returns
-- what the engine reports through callbacks. Below them, `pyrewire._core` holds what they share:
-- the exception classes and `check` (errors.py), the encoding of values in 64-bit lanes
-- (lanes.py), the registry of callback slots (callbacks.py) and the intern cache (intern.py);
-- `pyrewire.io_adapter` lets the engine read rows from the user's objects,
-- `pyrewire.asyncio_session` runs sessions on worker threads, `pyrewire.ir` views the engine's
-- trees; and `pyrewire._ffi` finds the shared library and holds the mirror of the engine's C
-- declarations.
--
-- The files, and the code that each models:
--   Prelude      shared notation, lists, dictionaries as association lists, the integers.
--   Python       what the code uses of Python: exceptions as values (Result), methods that change
--                an object and may raise (Exec), 64-bit words (Words), binary64 floats by their bits
--                (Float), and the values that the wrapper tells apart (Value).
--   Ffi          src/pyrewire/_ffi/_enums.py (Enums, Operators), src/pyrewire/_ffi/_types.py (Types),
--                src/pyrewire/_ffi/_util.py (Names), src/pyrewire/_ffi/_loader.py (Loader), and in
--                Prototypes what src/pyrewire/_ffi/_parser.py, _executor.py, _ir.py, _advanced.py,
--                _easy.py, _io.py and _util.py register, and when importing the package ends.
--   Errors       src/pyrewire/_core/errors.py: the classes, their codes, `check`, `error_string`.
--   Lanes        src/pyrewire/_core/lanes.py: `encode_lane`, `decode_lane`, `decode_typed_row`.
--   Callbacks    src/pyrewire/_core/callbacks.py: the trampolines (`event_of`, `record_event`,
--                `invoke`), and `CallbackHandle` (`new_handle`, `drain`, `close`).
--   Intern       src/pyrewire/_core/intern.py: `InternTable`. Intern.Mirror is the interface to the
--                engine's intern table, with the laws that a client may use.
--   Program      src/pyrewire/program.py: `Program.from_string`, `schema`, `facts_raw`, `facts`,
--                `close`; in Files `from_file`, in Strata `stratum`, `strata` and `relation_ir`.
--   Ir           src/pyrewire/ir.py: the nodes of a relation's tree, `walk` and `to_str`.
--   Session      src/pyrewire/session.py, the class `Session`, and src/pyrewire/compound.py. Object
--                has the fields and the constructor, Rows the encoding of batches (`_flatten`,
--                `_build_typed_rows`), Updates the inserts and removes, Deltas the delta callbacks
--                and steps, Snapshot the snapshots, TypedRows the way of typed rows from an insert to a
--                step, Lifecycle the compounds, the inline facts and
--                `close`, Modes the mode machine over all operations that require a mode, and
--                Threads several threads that call `step` on one session with its lock.
--   EasySession  src/pyrewire/session.py, the class `EasySession`: its fields and the methods on rows
--                and symbols; Steps has `set_delta_callback`, `step` and `snapshot`, Lifecycle the
--                constructor, `make_compound` and `close`, Cache what decoding a row depends on.
--   Helpers      src/pyrewire/helpers.py: `make_safe_print_delta`, `is_wirelog_print_delta`.
--   Batch        src/pyrewire/batch.py: `BatchProgram`, in Results the class `Result`, and in Debug
--                `optimizer_debug`.
--   Asyncio      src/pyrewire/asyncio_session.py: the pool of a proxy and its life, in Calls the calls
--                of the three proxies, and in Serial their order, their cancellation and their completion.
--   Libc         src/pyrewire/_core/_libc.py: the libc that the first call loads, `libc_malloc` and
--                `libc_free`.
--   Stdout       src/pyrewire/_core/stdcapture.py: the process's file descriptors around a block that
--                runs under `capture_c_stdout`, where the system's choice of a descriptor is a parameter,
--                and in Pipe the thread that drains the pipe.
--   IoAdapter    src/pyrewire/io_adapter.py: the `read` and `validate` callbacks, the registry, and in
--                Context the methods of `IOContext`.
--   Scripts      scripts/ci/check_dynamic_link.py: what it finds in a wheel, and its exit code.
--   Tests        the theorems at concrete inputs, with a small engine.
--
-- State. A registry is the heap of trampoline states with the keys that are live; a session carries
-- its fields, the compounds that it shares with its caller, the registry and the state of the
-- engine. A method is a function from a session to a result and a session (`Exec`): what it changed
-- before it raised stays changed. A call of the engine that runs a program gives the list of the
-- trampoline calls that it makes; they reach the registry in that order before its code is checked.
--
-- The engine. libwirelog and libc are parameters: `ProgramLib`, `SessionLib`, `EasyLib`, `BatchLib`,
-- `AdapterLib` and `LibcLib` are records of the functions that the wrapper calls, over any state of the engine.
-- Python's own text and file functions (`int` and `float` of a text, `strip`, `csv`, `mkstemp`) are
-- parameters where the code rests on them. NumPy's `asarray` and an object's
-- `__index__`, `__float__` and comparison are parameters as well. No theorem assumes anything of
-- them but what its hypotheses say.
--
-- Numbers. A Python int is a ℤ without bounds; c_int64, c_uint32 and the mask of a lane are written
-- out (`% 2 ^ 64`, `% 2 ^ 32`). A float is its 64 bits. All loops are structural recursion, but for
-- the walk over a tree of the engine's pointers, which takes fuel: the height of the tree is enough.
--
-- Not modelled. Locks and threads but for those that call `step` on one session, the workers of the
-- asyncio proxies and the thread of the captured output, so that every other method runs alone; the
-- texts of exceptions, but for those of `error_string`, and `__repr__`; `__del__`, which only calls
-- `close`; the flushing of C streams; cancelling `__aexit__` of a proxy while it waits; which
-- arguments ctypes takes in a call; the examples, and the scripts that build and publish.
pub mod Prelude
pub mod Python
pub mod Ffi
pub mod Errors
pub mod Lanes
pub mod Libc
pub mod Asyncio
pub mod Batch
pub mod Callbacks
pub mod Helpers
pub mod Intern
pub mod IoAdapter
pub mod Ir
pub mod Program
pub mod Scripts
pub mod Session
pub mod Stdout
pub mod EasySession
pub mod Tests
