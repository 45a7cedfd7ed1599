-- ===== src/EasySession/Lifecycle.antt =====
-- The constructor, the compounds and the end of an `EasySession` (src/pyrewire/session.py).
pub mod Close
use pyre_wire.Prelude.{
  ℕ, ◌+◌, ◌%◌, ◌^◌, String, Bool, true, false, Option, none, some, List, [], ◌∷◌, ◌++◌, length, map,
  ◌==◌, nat_eq, if◌then◌else◌,
}
use pyre_wire.Prelude.Int.{ℤ}
use pyre_wire.Python.Result.{Result, ok, err, wirelog, exec_error, is_exception, ◌>>=◌, ◌>>◌}
use pyre_wire.Python.Exec.{Exec}
use pyre_wire.Python.Words.{c_uint32, mask64}
use pyre_wire.Ffi.Types.{EasyOpenOptsStruct, easy_open_opts_size}
use pyre_wire.Errors.{check}
use pyre_wire.Callbacks.{Registry, CallbackHandle, at, close}
use pyre_wire.Intern.{empty_table}
use pyre_wire.Program.{Program, from_string}
use pyre_wire.Session.Object.{Mode, Compound}
use pyre_wire.Session.Lifecycle.{CompoundArg, to_struct, out_handle, new_compound, invalidate_all}
use pyre_wire.EasySession.{EasyLib, EasySession}

-- `EasyOpenOptsStruct(size=..., num_workers=int(num_workers), eager_build=bool(eager_build))`
unfoldable pub open_opts_of : ℤ → Bool → EasyOpenOptsStruct
open_opts_of workers eager = record {
  size = easy_open_opts_size;
  num_workers = c_uint32 (mask64 workers);
  eager_build = eager;
}

-- `try: Program.from_string(dl_src) except Exception: None`
unfoldable pub program_or_none : Result Program → Result (Option Program)
program_or_none (ok p) = ok (some p)
program_or_none (err e) = if is_exception e then ok none else err e

module _ {W : Type 0} where
  -- The fields of a new session.
  abbrev pub fresh_easy : ℕ → Option Program → Registry → W → EasySession W
  fresh_easy h p r w = record {
    handle = h;
    closed = false;
    mode = Mode.unset;
    table = empty_table;
    compounds = [];
    objects = λ k. record { functor = ""; arity = 0; handle = 0; invalidated = false };
    next_object = 0;
    schema_program = p;
    schema_cache = [];
    delta_cb = none;
    pending = [];
    registry = r;
    world = w;
  }

  unfoldable pub easy_add_compound : Result Compound → Exec (EasySession W) ℕ
  easy_add_compound (err e) s = (err e, s)
  easy_add_compound (ok c) s =
      let k = s.next_object in
      (
        ok k,
        record s {
          compounds = s.compounds ++ k ∷ [];
          objects = at s.objects k c;
          next_object = k + 1;
        },
      )

  -- The callback's slot is closed and forgotten.
  unfoldable pub easy_forget_cb : Option CallbackHandle → EasySession W → EasySession W
  easy_forget_cb none s = s
  easy_forget_cb (some h) s = record s { registry = close h s.registry; delta_cb = none }

module _ {W : Type 0} (lib : EasyLib W) where
  -- The constructor past `check(rc)`: the source is parsed again beside the session.
  unfoldable pub easy_opened : String → Registry → ℕ → W → Result (EasySession W)
  easy_opened source r h w =
      if h == 0
      then err (wirelog exec_error)
      else (let (p, w') = from_string lib.program source w in
          do p' ← program_or_none p; ok (fresh_easy h p' r w'))

  easy_after_open : String → Registry → ℕ → W → Result (Unit {0}) → Result (EasySession W)
  easy_after_open source r h w (ok _) = easy_opened source r h w
  easy_after_open source r h w (err e) = err e

  -- `EasySession(dl_src, num_workers, eager_build)`
  unfoldable pub create_easy : String → ℤ → Bool → Registry → W → Result (EasySession W)
  unfolding easy_after_open
  create_easy source workers eager r w =
      let ((rc, h), w') = lib.open_opts source (open_opts_of workers eager) w in
      easy_after_open source r h w' (check rc)

  -- `make_compound(functor, args)`
  unfoldable pub easy_make_compound : String → List CompoundArg → Exec (EasySession W) ℕ
  easy_make_compound functor args s =
      let ((rc, out), w) =
        lib.make_compound s.handle functor (c_uint32 (length args)) (map to_struct args) s.world in
      easy_add_compound (do check rc; h ← out_handle out; new_compound functor (length args) h)
        (record s { world = w })

  -- The parsed program goes before the engine's session.
  unfoldable pub close_program : Option Program → W → W
  close_program none w = w
  close_program (some p) w = (pyre_wire.Program.close lib.program p w).1

  -- The engine is told of the callback's end, whatever it answers.
  unfoldable pub unset_cb : ℕ → Option CallbackHandle → W → W
  unset_cb h none w = w
  unset_cb h (some cb) w = (lib.set_delta_cb h none w).1

  unfoldable pub close_handle : ℕ → W → W
  close_handle h w = if h == 0 then w else lib.close h w

  -- The engine's calls of `close`, in their order.
  unfoldable pub easy_close_world : EasySession W → W
  easy_close_world s =
      close_handle s.handle (unset_cb s.handle s.delta_cb (close_program s.schema_program s.world))

  -- The body of `close` past its guard.
  unfoldable pub easy_release : EasySession W → EasySession W
  easy_release s = record (easy_forget_cb s.delta_cb s) {
    compounds = [];
    objects = invalidate_all s.compounds s.objects;
    schema_program = none;
    schema_cache = [];
    pending = [];
    handle = 0;
    closed = true;
    world = easy_close_world s;
  }

  unfoldable pub easy_close : EasySession W → EasySession W
  easy_close s = if s.closed then s else easy_release s
