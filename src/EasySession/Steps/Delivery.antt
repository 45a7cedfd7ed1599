-- ===== src/EasySession/Steps/Delivery.antt =====
-- What `EasySession.step` returns (src/pyrewire/session.py), against a description of the engine's
-- calls and of the program's schemas.
use pyre_wire.Prelude.{
  String, ◌≡◌, true, refl, sym, ap, subst, ◌∙◌, Option, none, some, List, [], string_eq,
}
use pyre_wire.Prelude.Int.{ℤ}
use pyre_wire.Python.Result.{Result, ok, err, ◌>>=◌, ◌>>◌, traverse}
use pyre_wire.Python.Exec.{continue, ◌>>=◌ as bind}
use pyre_wire.Errors.{check}
use pyre_wire.Callbacks.{CallbackHandle, Delta, UserFn, Event, invoke_all, drain}
use pyre_wire.Callbacks.Delivery.{failure, received, drain-invoke_all, drain-user_fn}
use pyre_wire.Program.{Program}
use pyre_wire.Session.Object.{Mode}
use pyre_wire.Session.Deltas.Delivery.{reports, after, events_of, or_failure_lem, delivered-reports}
use pyre_wire.EasySession.{EasyLib, EasySession, Pending, easy_require_mode, easy_mode_from}
use pyre_wire.EasySession.Steps.{
  easy_step, easy_step_handle, easy_step_handle_from, easy_run_step, easy_run, easy_drain,
  easy_report, easy_dispatch, easy_decode_deltas, dispatch,
}
use pyre_wire.EasySession.Cache.{
  View, Decodes, CacheAgrees, Gives, bind-Gives, pure-Gives, deltas-Gives, decoded_delta,
}

-- The session's callback is the handle, with a live slot and nothing left to deliver.
pub record IsEasyArmed {W : Type 0} (h : CallbackHandle) (s : EasySession W) : Type 0 where
  pub mode : s.mode ≡ Mode.incremental
  pub callback : s.delta_cb ≡ some h
  pub live : s.registry.live h.token ≡ true
  pub no_events : (s.registry.states h.token).queue ≡ []
  pub no_error : (s.registry.states h.token).last_error ≡ none

-- The deltas, if the user's function takes each of them.
abbrev pub told : Option UserFn → List Delta → Result (List Delta)
told f ds = do dispatch f ds; ok ds

-- The inputs after a call with that result: let go of once the call has succeeded.
abbrev pub inputs_after : Result (Unit {0}) → List Pending → List Pending
inputs_after (ok _) q = []
inputs_after (err e) q = q

drain-reports :
    (h : CallbackHandle) (ds : List (String × List ℤ × ℤ)) {W : Type 0} (s : EasySession W)
    → IsEasyArmed h s
    → (drain h (invoke_all (reports h.token ds) s.registry)).0 ≡ ok (events_of ds)
drain-reports h ds s a =
    (drain-invoke_all h (reports h.token ds) s.registry a.live a.no_events a.no_error).0
    ∙ or_failure_lem (failure h.token (reports h.token ds) none)
        (received h.token (reports h.token ds))
    ∙ delivered-reports h ds

module _ {W : Type 0} (lib : EasyLib W) where
  easy_require_mode_same :
      (s : EasySession W)
      → s.mode ≡ Mode.incremental
      → easy_require_mode lib Mode.incremental s ≡ (ok tt, s)
  unfolding easy_require_mode easy_mode_from
  easy_require_mode_same s e = ap (λ m. easy_mode_from lib m Mode.incremental s) e

  easy_step_handle_same :
      (h : CallbackHandle) (s : EasySession W)
      → s.delta_cb ≡ some h
      → easy_step_handle lib s ≡ (ok h, s)
  unfolding easy_step_handle easy_step_handle_from
  easy_step_handle_same h s e = ap (λ c. easy_step_handle_from lib c s) e

  dispatch-Gives :
      (v : View W) (h : CallbackHandle) (ds : List Delta)
      → Gives lib v (easy_dispatch h ds) (dispatch (v.registry.states h.token).user_fn ds)
  unfolding easy_dispatch
  dispatch-Gives v h ds s d = (ap (λ r. dispatch (r.states h.token).user_fn ds) d.registry, d)

  easy_report-Decodes :
      (v : View W) (h : CallbackHandle) (ds : List (String × List ℤ × ℤ)) (s : EasySession W)
      → Decodes lib v (record s { pending = [] })
      → let (res, s') = easy_report lib h (events_of ds) s in
        (res ≡ (traverse (decoded_delta lib v) ds >>= told (v.registry.states h.token).user_fn))
        × Decodes lib v s'
  unfolding easy_report
  easy_report-Decodes v h ds s d =
      bind-Gives lib v (easy_decode_deltas lib (events_of ds)) _ (traverse (decoded_delta lib v) ds)
        _ (deltas-Gives lib v ds)
        (λ out.
          bind-Gives lib v (easy_dispatch h out) _
            (dispatch (v.registry.states h.token).user_fn out) _ (dispatch-Gives v h out)
            (λ _. pure-Gives lib v out))
        (record s { pending = [] }) d

  -- The session's view where the program and the engine's state are these.
  abbrev pub view : Program → W → EasySession W → View W
  view p w s = record {
    program = p;
    world = w;
    table = s.table;
    registry = s.registry;
    pending = s.pending;
  }

  -- What `step` returns for these deltas, if the engine's code is one of success.
  abbrev pub told_deltas :
      Program
      → W
      → CallbackHandle
      → List (String × List ℤ × ℤ)
      → EasySession W
      → Result (List Delta)
  told_deltas p w h ds s =
      traverse (decoded_delta lib (view p w s)) ds >>= told (s.registry.states h.token).user_fn

  -- The session after the engine has run.
  abbrev ran : CallbackHandle → List (String × List ℤ × ℤ) → W → EasySession W → EasySession W
  ran h ds w s = record s { world = w; registry = invoke_all (reports h.token ds) s.registry }

  drained :
      (p : Program) (w : W) (h : CallbackHandle) (ds : List (String × List ℤ × ℤ))
      (s : EasySession W) (res : Result (List Event))
      → IsEasyArmed h s
      → s.schema_program ≡ some p
      → CacheAgrees lib p w s
      → ok (events_of ds) ≡ res
      → let x = continue res (easy_report lib h) (record s {
        world = w;
        registry = (drain h (invoke_all (reports h.token ds) s.registry)).1;
      }) in
        (x.0 ≡ told_deltas p w h ds s) × (x.1.pending ≡ [])
  drained p w h ds s res a program agrees e =
      let r = (drain h (invoke_all (reports h.token ds) s.registry)).1 in
      let s' = record s { world = w; registry = r } in
      let (reported, kept) =
        easy_report-Decodes (record (view p w s) { registry = r; pending = [] }) h ds s'
          (record {
            program = program;
            world = refl;
            table = refl;
            registry = refl;
            pending = refl;
            agrees = agrees;
          }) in
      subst
        (λ y.
          let x = continue y (easy_report lib h) s' in
          (x.0 ≡ told_deltas p w h ds s) × (x.1.pending ≡ []))
        e
        (
          reported
              ∙ ap (λ f. traverse (decoded_delta lib (view p w s)) ds >>= told f)
                  (drain-user_fn h (reports h.token ds) s.registry a.live),
          kept.pending,
        )

  checked :
      (p : Program) (w : W) (h : CallbackHandle) (ds : List (String × List ℤ × ℤ))
      (s : EasySession W) (r : Result (Unit {0}))
      → IsEasyArmed h s
      → s.schema_program ≡ some p
      → CacheAgrees lib p w s
      → let x = continue r (λ _. bind (easy_drain h) (easy_report lib h)) (ran h ds w s) in
        (x.0 ≡ after r (told_deltas p w h ds s)) × (x.1.pending ≡ inputs_after r s.pending)
  unfolding easy_drain
  checked p w h ds s (ok _) a program agrees =
      drained p w h ds s _ a program agrees (sym (drain-reports h ds s a))
  checked p w h ds s (err e) a program agrees = (refl, refl)

  -- A `step` of a session in incremental mode whose callback is armed and has nothing left to deliver,
  -- where the engine only reports deltas to the session's token and the schemas in the cache are the
  -- program's: it raises what `check` makes of the engine's code, and keeps the inputs alive then;
  -- else it lets go of the inputs, decodes each delta by the program's schema of its relation, and
  -- returns them in order if the user's function, called on them in order, raises on none.
  pub easy_step-reports :
      (p : Program) (h : CallbackHandle) (s : EasySession W) (rc : ℤ)
      (ds : List (String × List ℤ × ℤ)) (w : W)
      → IsEasyArmed h s
      → lib.step s.handle s.world ≡ ((rc, reports h.token ds), w)
      → s.schema_program ≡ some p
      → CacheAgrees lib p w s
      → let (res, s') = easy_step lib s in
        (res ≡ after (check rc) (told_deltas p w h ds s))
        × (s'.pending ≡ inputs_after (check rc) s.pending)
  unfolding easy_step easy_run_step easy_run
  easy_step-reports p h s rc ds w a runs program agrees =
      rw (easy_require_mode_same s a.mode, easy_step_handle_same h s a.callback, runs)
        (checked p w h ds s (check rc) a program agrees)
