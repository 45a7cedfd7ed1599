-- ===== src/Session/Deltas.antt =====
-- Delta callbacks and steps (src/pyrewire/session.py).
pub mod Delivery
pub mod Refusal
pub mod First
pub mod Typed
use pyre_wire.Prelude.{
  ℕ, String, Bool, true, false, Option, none, some, List, [], ◌∷◌, if◌then◌else◌,
}
use pyre_wire.Prelude.Int.{ℤ}
use pyre_wire.Python.Result.{Result, ok, err, traverse, value_error}
use pyre_wire.Python.Exec.{Exec, pure, lift, ◌>>=◌, ◌>>◌}
use pyre_wire.Python.Value.{Value}
use pyre_wire.Errors.{check}
use pyre_wire.Callbacks.{
  Kind, Event, UserFn, Registry, CallbackHandle, Invocation, new_handle, user_data, invoke_all,
  drain, close, with_state,
}
use pyre_wire.Session.Object.{Session, SessionLib, Mode, call_rc, checked, require_mode}
use pyre_wire.Session.Updates.{require_typed_row_api}

abbrev pub is_kind : Kind → Kind → Bool
is_kind Kind.delta Kind.delta = true
is_kind Kind.tuple Kind.tuple = true
is_kind Kind.typed_delta Kind.typed_delta = true
is_kind _ _ = false

module _ {W : Type 0} where
  -- `self._delta_cb = CallbackHandle(kind)`
  unfoldable pub install : Kind → Exec (Session W) CallbackHandle
  install k s =
      let (h, r) = new_handle k none s.registry in
      (ok h, record s { delta_cb = some h; registry = r })

  -- A call of the engine that runs the program: its trampoline calls reach the registry while it
  -- runs, and its code is checked after.
  unfoldable pub run_engine : (W → (ℤ × List Invocation) × W) → Exec (Session W) (Unit {0})
  run_engine f s =
      let ((rc, calls), w) = f s.world in
      (check rc, record s { world = w; registry = invoke_all calls s.registry })

  unfoldable pub drain_handle : CallbackHandle → Exec (Session W) (List Event)
  drain_handle h s = let (res, r) = drain h s.registry in (res, record s { registry = r })

  -- The `finally` of `_clear_delta_cb`.
  unfoldable pub release : CallbackHandle → Session W → Session W
  release h s = record s { registry = close h s.registry; delta_cb = none }

-- `for _kind, rel, vals, diff in events`: a payload of another length is a `ValueError`.
abbrev pub delta_payload : Event → Result (String × List ℤ × ℤ)
delta_payload (Event.delta rel vals diff) = ok (rel, vals, diff)
delta_payload (Event.tuple rel vals) = err value_error
delta_payload (Event.typed_delta rel vals diff) = err value_error

abbrev pub typed_payload : Event → Result (String × List Value × ℤ)
typed_payload (Event.typed_delta rel vals diff) = ok (rel, vals, diff)
typed_payload (Event.tuple rel vals) = err value_error
typed_payload (Event.delta rel vals diff) = err value_error

module _ {W : Type 0} (lib : SessionLib W) where
  -- The setter of a kind of callback: only "typed_delta" has its own.
  unfoldable pub set_cb : Kind → Option ℕ → ℕ → W → ℤ × W
  set_cb Kind.typed_delta user handle = lib.set_typed_delta_cb handle user
  set_cb _ user handle = lib.set_delta_cb handle user

  -- `_clear_delta_cb` of the callback that is armed: it is closed whether or not the engine agrees.
  unfoldable pub clear_cb : CallbackHandle → Exec (Session W) (Unit {0})
  clear_cb h s = let (r, s') = checked (set_cb h.kind none s.handle) s in (r, release h s')

  unfoldable pub clear_if : Option CallbackHandle → Exec (Session W) (Unit {0})
  clear_if none = pure tt
  clear_if (some h) = clear_cb h

  unfoldable pub clear_delta_cb : Exec (Session W) (Unit {0})
  clear_delta_cb s = clear_if s.delta_cb s

  -- `_set_*_delta_cb` with the handle's trampoline.
  unfoldable pub arm : CallbackHandle → Exec (Session W) (Unit {0})
  arm h s = checked (set_cb h.kind (some (user_data h)) s.handle) s

  -- The armed callback if it is of the kind, else a new handle, in place of the one that is there.
  unfoldable pub replace_cb : Kind → Exec (Session W) CallbackHandle
  replace_cb k = do clear_delta_cb; install k

  unfoldable pub user_handle_from : Kind → Option CallbackHandle → Exec (Session W) CallbackHandle
  user_handle_from k none = replace_cb k
  user_handle_from k (some h) = if is_kind h.kind k then pure h else replace_cb k

  unfoldable pub user_handle : Kind → Exec (Session W) CallbackHandle
  user_handle k s = user_handle_from k s.delta_cb s

  -- `handle._state.user_fn = fn`
  unfoldable pub store_fn : UserFn → CallbackHandle → Exec (Session W) (Unit {0})
  store_fn f h s =
      let st = s.registry.states h.token in
      (
        ok tt,
        record s { registry = with_state s.registry h.token (record st { user_fn = some f }) },
      )

  -- The body of `set_delta_callback` and `set_typed_delta_callback` past the mode.
  unfoldable pub set_callback : Kind → Option UserFn → Exec (Session W) (Unit {0})
  set_callback k none = clear_delta_cb
  set_callback k (some f) = do h ← user_handle k; store_fn f h; arm h

  unfoldable pub set_delta_callback : Option UserFn → Exec (Session W) (Unit {0})
  set_delta_callback f = do require_mode Mode.incremental; set_callback Kind.delta f

  unfoldable pub set_typed_delta_callback : Option UserFn → Exec (Session W) (Unit {0})
  set_typed_delta_callback f = do
    require_typed_row_api lib
    require_mode Mode.incremental
    set_callback Kind.typed_delta f

  -- The first part of `step` and `step_typed`: a handle of another kind, or none, is replaced by a
  -- new one, which is armed; one of the kind is taken to be armed.
  unfoldable pub step_handle_from : Kind → Option CallbackHandle → Exec (Session W) CallbackHandle
  step_handle_from k none = do h ← replace_cb k; arm h; pure h
  step_handle_from k (some h) =
      if is_kind h.kind k then pure h else (do h' ← replace_cb k; arm h'; pure h')

  unfoldable pub step_handle : Kind → Exec (Session W) CallbackHandle
  step_handle k s = step_handle_from k s.delta_cb s

  unfoldable pub run_step : Exec (Session W) (Unit {0})
  run_step s = run_engine (lib.step s.handle) s

  unfoldable pub step_events : Kind → Exec (Session W) (List Event)
  step_events k = do require_mode Mode.incremental; h ← step_handle k; run_step; drain_handle h

  unfoldable pub step : Exec (Session W) (List (String × List ℤ × ℤ))
  step = do events ← step_events Kind.delta; lift (traverse delta_payload events)

  unfoldable pub step_typed : Exec (Session W) (List (String × List Value × ℤ))
  step_typed = do
    require_typed_row_api lib
    events ← step_events Kind.typed_delta
    lift (traverse typed_payload events)
