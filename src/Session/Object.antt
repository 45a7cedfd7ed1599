-- ===== src/Session/Object.antt =====
-- The object `Session` of src/pyrewire/session.py with what it shares with its caller: the
-- borrowed program, the compounds that it has handed out, the callback registry and the engine.
use pyre_wire.Prelude.{ℕ, String, Bool, false, Option, none, List, [], ◌==◌, nat_eq, if◌then◌else◌}
use pyre_wire.Prelude.Int.{ℤ}
use pyre_wire.Python.Result.{Result, ok, err, wirelog, mode_error, exec_error, intern_error}
use pyre_wire.Python.Exec.{Exec, lift, ◌>>=◌}
use pyre_wire.Ffi.Types.{CompoundArgStruct, TypedRow, TypedError}
use pyre_wire.Callbacks.{Registry, CallbackHandle, Invocation}
use pyre_wire.Intern.{InternTable, InternFn, empty_table, remember}
use pyre_wire.Program.{Program, ProgramLib}
use pyre_wire.Python.Words.{c_int, mask32}
use pyre_wire.Errors.{check}

-- `_Mode`
pub data Mode : Type 0 where
  unset incremental query : Mode

-- `Compound`, as an object that the session and the caller share; its session is open as long as
-- the session's `closed` is false.
pub record Compound : Type 0 where
  pub functor : String
  pub arity : ℕ
  pub handle : ℕ
  pub invalidated : Bool

-- The functions `wirelog_session_*` over the engine's state `W`: what each returns, and for the two
-- that run the program, the trampoline calls that they make. A callback argument is the `user_data`
-- of the trampoline of that kind, or `none` for a NULL function.
pub record SessionLib (W : Type 0) : Type 0 where
  pub create : ℕ → ℤ → ℕ → W → (ℤ × ℕ) × W
  pub destroy : ℕ → W → W
  pub insert : ℕ → String → (ℕ → ℤ) → ℕ → ℕ → W → ℤ × W
  pub remove : ℕ → String → (ℕ → ℤ) → ℕ → ℕ → W → ℤ × W
  pub insert_typed : ℕ → String → List TypedRow → ℕ → W → (ℤ × TypedError) × W
  pub remove_typed : ℕ → String → List TypedRow → ℕ → W → (ℤ × TypedError) × W
  pub set_delta_cb : ℕ → Option ℕ → W → ℤ × W
  pub set_typed_delta_cb : ℕ → Option ℕ → W → ℤ × W
  pub step : ℕ → W → (ℤ × List Invocation) × W
  pub snapshot : ℕ → ℕ → W → (ℤ × List Invocation) × W
  pub snapshot_typed : ℕ → ℕ → W → (ℤ × List Invocation) × W
  pub make_compound : ℕ → String → ℕ → List CompoundArgStruct → W → (ℤ × ℕ) × W
  -- `has_typed_row_api()`
  pub typed_rows : Bool
  pub program : ProgramLib W

pub record Session (W : Type 0) : Type 0 where
  pub program : Program
  pub handle : ℕ
  pub closed : Bool
  pub mode : Mode
  pub delta_cb : Option CallbackHandle
  pub intern : InternTable
  -- The keys of the session's compounds in the heap `objects`.
  pub compounds : List ℕ
  pub objects : ℕ → Compound
  pub next_object : ℕ
  pub registry : Registry
  pub world : W

-- A call of the engine that returns a code.
abbrev pub call_rc : {W : Type 0} → (W → ℤ × W) → Exec (Session W) ℤ
call_rc f s = let (rc, w) = f s.world in (ok rc, record s { world = w })

-- A call of the engine, then `check` of its code.
unfoldable pub checked : {W : Type 0} → (W → ℤ × W) → Exec (Session W) (Unit {0})
checked f = do rc ← call_rc f; lift (check rc)

-- `_require_mode(want)`, on the mode that the session has.
unfoldable pub require_from : {W : Type 0} → Mode → Mode → Exec (Session W) (Unit {0})
require_from Mode.unset want s = (ok tt, record s { mode = want })
require_from Mode.incremental Mode.incremental s = (ok tt, s)
require_from Mode.query Mode.query s = (ok tt, s)
require_from _ _ s = (err (wirelog mode_error), s)

unfoldable pub require_mode : {W : Type 0} → Mode → Exec (Session W) (Unit {0})
require_mode want s = require_from s.mode want s

-- `_reject_intern`
unfoldable pub reject_intern : {W : Type 0} → InternFn W
reject_intern v w = (err (wirelog intern_error), w)

-- `seed_intern(value, sym_id)`
unfoldable pub seed_intern : {W : Type 0} → String → ℤ → Exec (Session W) (Unit {0})
seed_intern v id s = (ok tt, record s { intern = remember id v s.intern })

module _ {W : Type 0} (lib : SessionLib W) where
  unfoldable pub opened : Program → Registry → ℕ → W → Result (Session W)
  opened p r h w =
      if h == 0
      then err (wirelog exec_error)
      else ok (record {
        program = p;
        handle = h;
        closed = false;
        mode = Mode.unset;
        delta_cb = none;
        intern = empty_table;
        compounds = [];
        objects = λ k. record { functor = ""; arity = 0; handle = 0; invalidated = false };
        next_object = 0;
        registry = r;
        world = w;
      })

  after_create : Program → Registry → ℕ → W → Result (Unit {0}) → Result (Session W)
  after_create p r h w (ok _) = opened p r h w
  after_create p r h w (err e) = err e

  -- `Session(program, backend, num_workers)`, of the two as ints.
  unfoldable pub create_session : Program → ℤ → ℤ → Registry → W → Result (Session W)
  unfolding after_create
  create_session p backend workers r w =
      let ((rc, h), w') = lib.create p.handle (c_int backend) (mask32 workers) w in
      after_create p r h w' (check rc)
