-- ===== src/Session/Lifecycle.antt =====
-- Compounds, the inline facts and the end of a session (src/pyrewire/session.py and
-- src/pyrewire/compound.py).
pub mod AfterClose
pub mod Close
use pyre_wire.Prelude.{
  ℕ, ◌+◌, String, true, false, some, List, [], ◌∷◌, ◌++◌, length, map, ◌==◌, nat_eq, if◌then◌else◌,
}
use pyre_wire.Prelude.Int.{ℤ}
use pyre_wire.Python.Result.{
  Result, ok, err, value_error, wirelog, exec_error, is_exception, is_exec_error, ◌>>=◌, ◌>>◌,
}
use pyre_wire.Python.Exec.{Exec}
use pyre_wire.Python.Words.{c_int64, c_uint32}
use pyre_wire.Python.Value.{Value}
use pyre_wire.Ffi.Enums.{ColumnType, column_code}
use pyre_wire.Ffi.Types.{CompoundArgStruct}
use pyre_wire.Errors.{check}
use pyre_wire.Callbacks.{at}
use pyre_wire.Program.{facts}
use pyre_wire.Session.Object.{Session, SessionLib, Compound}
use pyre_wire.Session.Deltas.{clear_if}

-- `CompoundArg`
pub record CompoundArg : Type 0 where
  pub type : ColumnType
  pub value : ℤ

-- `CompoundArg.to_struct`
unfoldable pub to_struct : CompoundArg → CompoundArgStruct
to_struct a = record { type_code = column_code a.type; value = c_int64 a.value }

-- What follows `check(rc)` in `_make_compound_call`.
abbrev pub out_handle : ℕ → Result ℕ
out_handle out = if out == 0 then err (wirelog exec_error) else ok out

-- `Compound(session, functor, arity, raw_handle)`
unfoldable pub new_compound : String → ℕ → ℕ → Result Compound
new_compound functor arity h =
    if h == 0
    then err value_error
    else ok (record { functor = functor; arity = arity; handle = h; invalidated = false })

-- `invalidate`
unfoldable pub invalidate : Compound → Compound
invalidate c = record c { invalidated = true }

-- `for c in self._compounds: c.invalidate()`
unfoldable pub invalidate_all : List ℕ → (ℕ → Compound) → ℕ → Compound
invalidate_all [] objects = objects
invalidate_all (k ∷ ks) objects = invalidate_all ks (at objects k (invalidate (objects k)))

module _ {W : Type 0} where
  -- The property `handle` of a compound, while its session is alive.
  unfoldable pub compound_handle : Session W → Compound → Result ℕ
  compound_handle s c =
      if c.invalidated then err value_error else if s.closed then err value_error else ok c.handle

  -- The new compound joins the session's, and the caller gets it.
  unfoldable pub add_compound : Result Compound → Exec (Session W) ℕ
  add_compound (err e) s = (err e, s)
  add_compound (ok c) s =
      let k = s.next_object in
      (
        ok k,
        record s {
          compounds = s.compounds ++ k ∷ [];
          objects = at s.objects k c;
          next_object = k + 1;
        },
      )

  -- The session's fields after `close`, once the callback is gone.
  unfoldable pub closed_state : Session W → Session W
  closed_state s = record s { handle = 0; closed = true }

module _ {W : Type 0} (lib : SessionLib W) where
  -- `_make_compound_call` and the rest of `make_compound`.
  unfoldable pub make_compound : String → List CompoundArg → Exec (Session W) ℕ
  make_compound functor args s =
      let ((rc, out), w) =
        lib.make_compound s.handle functor (c_uint32 (length args)) (map to_struct args) s.world in
      add_compound (do check rc; h ← out_handle out; new_compound functor (length args) h)
        (record s { world = w })

  abbrev or_empty : Result (List (List Value)) → Result (List (List Value))
  or_empty (ok rows) = ok rows
  or_empty (err e) = if is_exec_error e then ok [] else err e

  unfoldable pub preview_inline_facts : String → Exec (Session W) (List (List Value))
  preview_inline_facts relation s =
      let (r, w) = facts lib.program s.program relation (some s.intern) s.world in
      (or_empty r, record s { world = w })

  -- The engine's session goes, if there is one.
  unfoldable pub destroyed : Session W → Session W
  destroyed s =
      closed_state
        (record s { world = if s.handle == 0 then s.world else lib.destroy s.handle s.world })

  -- `except Exception` around `_clear_delta_cb`, which has already let go of the callback.
  unfoldable pub after_clear : Result (Unit {0}) × Session W → Result (Unit {0}) × Session W
  after_clear (ok _, s) = (ok tt, destroyed s)
  after_clear (err e, s) = if is_exception e then (ok tt, destroyed s) else (err e, s)

  unfoldable pub close : Exec (Session W) (Unit {0})
  close s =
      if s.closed
      then (ok tt, s)
      else after_clear (
          clear_if lib s.delta_cb
            (record s { compounds = []; objects = invalidate_all s.compounds s.objects }))
