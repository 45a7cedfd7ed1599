-- ===== src/EasySession/Steps.antt =====
-- Delta callbacks, steps and snapshots of an `EasySession` (src/pyrewire/session.py).
pub mod Delivery
pub mod Guard
pub mod Snapshots
use pyre_wire.Prelude.{
  ℕ, String, Bool, true, false, Option, none, some, List, [], ◌∷◌, if◌then◌else◌,
}
use pyre_wire.Prelude.Int.{ℤ}
use pyre_wire.Python.Result.{Exc, Result, ok, err, traverse, type_error}
use pyre_wire.Python.Exec.{Exec, pure, raise, lift, modify, finally, ◌>>=◌, ◌>>◌}
use pyre_wire.Python.Value.{Value}
use pyre_wire.Errors.{check}
use pyre_wire.Callbacks.{
  Kind, Event, Delta, UserFn, CallbackHandle, Invocation, new_handle, user_data, invoke_all, drain,
  close, with_state,
}
use pyre_wire.Helpers.{Callable, PrintDelta, is_wirelog_print_delta}
use pyre_wire.Session.Object.{Mode}
use pyre_wire.Session.Deltas.{delta_payload}
use pyre_wire.Session.Snapshot.{tuple_payload}
use pyre_wire.EasySession.{EasyLib, EasySession, easy_require_mode, easy_decode_row, call_easy}

-- `for ev in decoded: user_fn(ev)`: the first exception ends it.
unfoldable pub dispatch_all : UserFn → List Delta → Result (Unit {0})
dispatch_all f [] = ok tt
dispatch_all f (d ∷ ds) = elim (f d) [ ok _ ↦ dispatch_all f ds | err e ↦ err e ]

unfoldable pub dispatch : Option UserFn → List Delta → Result (Unit {0})
dispatch none ds = ok tt
dispatch (some f) ds = dispatch_all f ds

module _ {W : Type 0} where
  -- `self._delta_cb = CallbackHandle("delta")`
  unfoldable pub easy_install : Exec (EasySession W) CallbackHandle
  easy_install s =
      let (h, r) = new_handle Kind.delta none s.registry in
      (ok h, record s { delta_cb = some h; registry = r })

  -- A call of the engine that runs the program, then `check` of its code.
  unfoldable pub easy_run : (W → (ℤ × List Invocation) × W) → Exec (EasySession W) (Unit {0})
  easy_run f s =
      let ((rc, calls), w) = f s.world in
      (check rc, record s { world = w; registry = invoke_all calls s.registry })

  unfoldable pub easy_drain : CallbackHandle → Exec (EasySession W) (List Event)
  easy_drain h s = let (res, r) = drain h s.registry in (res, record s { registry = r })

  -- `self._pending_easy_inputs.clear()`
  abbrev pub clear_pending : Exec (EasySession W) (Unit {0})
  clear_pending = modify (λ s. record s { pending = [] })

  easy_drop : CallbackHandle → Exec (EasySession W) (Unit {0})
  easy_drop h s = (ok tt, record s { registry = close h s.registry; delta_cb = none })

  -- `self._delta_cb._state.user_fn = fn`
  unfoldable pub easy_store_fn : UserFn → CallbackHandle → Exec (EasySession W) (Unit {0})
  easy_store_fn f h s =
      let st = s.registry.states h.token in
      (
        ok tt,
        record s { registry = with_state s.registry h.token (record st { user_fn = some f }) },
      )

  -- What `user_fn` is when the events have been decoded.
  abbrev pub user_fn_of : CallbackHandle → EasySession W → Option UserFn
  user_fn_of h s = (s.registry.states h.token).user_fn

  unfoldable pub easy_dispatch : CallbackHandle → List Delta → Exec (EasySession W) (Unit {0})
  easy_dispatch h ds s = (dispatch (user_fn_of h s) ds, s)

module _ {W : Type 0} (lib : EasyLib W) where
  unfoldable pub easy_arm : CallbackHandle → Exec (EasySession W) (Unit {0})
  easy_arm h = call_easy lib (λ handle. lib.set_delta_cb handle (some (user_data h)))

  -- Clearing the callback: it stays when the engine refuses.
  unfoldable pub easy_clear : Option CallbackHandle → Exec (EasySession W) (Unit {0})
  unfolding easy_drop
  easy_clear none = pure tt
  easy_clear (some h) = do call_easy lib (λ handle. lib.set_delta_cb handle none); easy_drop h

  unfoldable pub easy_user_handle : Option CallbackHandle → Exec (EasySession W) CallbackHandle
  easy_user_handle none = easy_install
  easy_user_handle (some h) = pure h

  -- The test of a function before the mode is committed.
  unfoldable pub reject_printer :
      Option PrintDelta → Option Callable → Exec (EasySession W) (Unit {0})
  reject_printer target none = pure tt
  reject_printer target (some fn) =
      if is_wirelog_print_delta target fn then raise type_error else pure tt

  unfoldable pub easy_set_callback : Option Callable → Exec (EasySession W) (Unit {0})
  easy_set_callback none s = easy_clear s.delta_cb s
  easy_set_callback (some fn) s =
      (do h ← easy_user_handle s.delta_cb; easy_store_fn fn.call h; easy_arm h) s

  -- `set_delta_callback(fn)`, where `target` is the engine's printer if the library has it.
  unfoldable pub easy_set_delta_callback :
      Option PrintDelta → Option Callable → Exec (EasySession W) (Unit {0})
  easy_set_delta_callback target fn = do
    reject_printer target fn
    easy_require_mode lib Mode.incremental
    easy_set_callback fn

  -- The first part of `step`: a handle that is there is taken to be armed.
  unfoldable pub easy_step_handle_from : Option CallbackHandle → Exec (EasySession W) CallbackHandle
  easy_step_handle_from none = do h ← easy_install; easy_arm h; pure h
  easy_step_handle_from (some h) = pure h

  unfoldable pub easy_step_handle : Exec (EasySession W) CallbackHandle
  easy_step_handle s = easy_step_handle_from s.delta_cb s

  unfoldable pub easy_run_step : Exec (EasySession W) (Unit {0})
  easy_run_step s = easy_run (lib.step s.handle) s

  unfoldable pub easy_decode_delta : String × List ℤ × ℤ → Exec (EasySession W) Delta
  easy_decode_delta (rel, ids, diff) = do vs ← easy_decode_row lib rel ids; pure (rel, vs, diff)

  -- `for _kind, rel, ids, diff in events`; an event of another length ends the loop.
  unfoldable pub easy_decode_deltas : List Event → Exec (EasySession W) (List Delta)
  easy_decode_deltas [] = pure []
  easy_decode_deltas (e ∷ es) = do
    p ← lift (delta_payload e)
    d ← easy_decode_delta p
    ds ← easy_decode_deltas es
    pure (d ∷ ds)

  -- What `step` does with the events that the callback has received.
  unfoldable pub easy_report : CallbackHandle → List Event → Exec (EasySession W) (List Delta)
  easy_report h events = do
    clear_pending
    ds ← easy_decode_deltas events
    easy_dispatch h ds
    pure ds

  unfoldable pub easy_step : Exec (EasySession W) (List Delta)
  easy_step = do
    easy_require_mode lib Mode.incremental
    h ← easy_step_handle
    easy_run_step
    events ← easy_drain h
    easy_report h events

  -- The list comprehension at the end of `snapshot`.
  unfoldable pub easy_decode_tuples : List Event → Exec (EasySession W) (List (List Value))
  easy_decode_tuples [] = pure []
  easy_decode_tuples (e ∷ es) = do
    p ← lift (tuple_payload e)
    vs ← easy_decode_row lib p.0 p.1
    rows ← easy_decode_tuples es
    pure (vs ∷ rows)

  -- The `try` and `finally` of `snapshot`, with its new handle.
  unfoldable pub easy_with_handle : String → CallbackHandle → Exec (EasySession W) (List Event)
  easy_with_handle relation h s =
      finally
        (do
          easy_run (lib.snapshot s.handle relation (user_data h))
          events ← easy_drain h
          clear_pending
          pure events)
        (λ s'. record s' { registry = close h s'.registry }) s

  unfoldable pub easy_snapshot_events : String → Exec (EasySession W) (List Event)
  easy_snapshot_events relation s =
      let (h, r) = new_handle Kind.tuple none s.registry in
      easy_with_handle relation h (record s { registry = r })

  unfoldable pub easy_snapshot : String → Exec (EasySession W) (List (List Value))
  easy_snapshot relation = do
    easy_require_mode lib Mode.query
    events ← easy_snapshot_events relation
    easy_decode_tuples events
