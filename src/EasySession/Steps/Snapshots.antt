-- ===== src/EasySession/Steps/Snapshots.antt =====
-- What `EasySession.snapshot` returns (src/pyrewire/session.py), against the tuples that the engine
-- forwards and the program's schemas.
use pyre_wire.Prelude.{
  ◌%◌, ◌^◌, String, ◌≡◌, refl, sym, ap, ap₂, subst, ◌∙◌, none, some, List, [], ◌∷◌, string_eq,
  nat_eq, arith,
}
use pyre_wire.Prelude.Int.{ℤ}
use pyre_wire.Python.Result.{Result, ok, err, traverse}
use pyre_wire.Python.Exec.{continue, pure, ◌>>=◌ as bind, ◌>>◌ as and_then}
use pyre_wire.Python.Value.{Value}
use pyre_wire.Errors.{check}
use pyre_wire.Callbacks.{
  Kind, CallbackHandle, Registry, Event, new_handle, user_data, invoke_all, drain, close,
}
use pyre_wire.Callbacks.Delivery.{drain-invoke_all, received, failure}
use pyre_wire.Program.{Program}
use pyre_wire.Session.Object.{Mode}
use pyre_wire.Session.Deltas.Delivery.{after, or_failure, or_failure_lem}
use pyre_wire.Session.Snapshot.Tuples.{forwards, tuple_events, received-forwards, failure-forwards}
use pyre_wire.EasySession.{EasyLib, EasySession, easy_require_mode, easy_mode_from, easy_decode_row}
use pyre_wire.EasySession.Steps.{
  easy_snapshot, easy_snapshot_events, easy_with_handle, easy_run, easy_drain, easy_decode_tuples,
  clear_pending,
}
use pyre_wire.EasySession.Steps.Delivery.{inputs_after, view}
use pyre_wire.EasySession.Cache.{
  View, CacheAgrees, Gives, bind-Gives, pure-Gives, decoded_row, easy_decode_row-Decodes,
}

-- The handle of a snapshot.
abbrev own_handle : Registry → CallbackHandle
own_handle r = record { kind = Kind.tuple; token = r.next_token }

-- The registry while the engine forwards these tuples to the snapshot's handle.
abbrev while_forwarding : Registry → List (String × List ℤ) → Registry
while_forwarding r es = invoke_all (forwards r.next_token es) (new_handle Kind.tuple none r).1

drain-forwards :
    (r : Registry) (es : List (String × List ℤ))
    → (drain (own_handle r) (while_forwarding r es)).0 ≡ ok (tuple_events es)
unfolding new_handle
drain-forwards r es =
    (drain-invoke_all (own_handle r) (forwards r.next_token es) (new_handle Kind.tuple none r).1
      (ground arith) (ground arith) (ground arith)).0
    ∙ or_failure_lem (failure r.next_token (forwards r.next_token es) none)
        (received r.next_token (forwards r.next_token es))
    ∙ ap₂ or_failure (failure-forwards r.next_token es) (received-forwards r.next_token es)

module _ {W : Type 0} (lib : EasyLib W) where
  tuples-Gives :
      (v : View W) (es : List (String × List ℤ))
      → Gives lib v
          (easy_decode_tuples lib (tuple_events es))
          (traverse (λ (rel, ids). decoded_row lib v rel ids) es)
  unfolding easy_decode_tuples
  tuples-Gives v [] = pure-Gives lib v []
  tuples-Gives v ((rel, ids) ∷ es) =
      bind-Gives lib v (easy_decode_row lib rel ids) _ (decoded_row lib v rel ids) _
        (easy_decode_row-Decodes lib rel ids)
        (λ vs.
          bind-Gives lib v (easy_decode_tuples lib (tuple_events es)) _
            (traverse (λ (rel, ids). decoded_row lib v rel ids) es) _ (tuples-Gives v es)
            (λ rows. pure-Gives lib v (vs ∷ rows)))

  -- What `snapshot` returns for these tuples, if the engine's code is one of success.
  abbrev pub decoded_tuples :
      Program → W → List (String × List ℤ) → EasySession W → Result (List (List Value))
  decoded_tuples p w es s = traverse (λ (rel, ids). decoded_row lib (view lib p w s) rel ids) es

  -- `cb.close()`, and the rows of the events.
  abbrev finished :
      CallbackHandle
      → Result (List Event) × EasySession W
      → Result (List (List Value)) × EasySession W
  finished h y =
      continue y.0 (easy_decode_tuples lib) (record y.1 { registry = close h y.1.registry })

  drained :
      (p : Program) (w : W) (es : List (String × List ℤ)) (s : EasySession W)
      (res : Result (List Event))
      → s.schema_program ≡ some p
      → CacheAgrees lib p w s
      → ok (tuple_events es) ≡ res
      → let r = (drain (own_handle s.registry) (while_forwarding s.registry es)).1 in
        let x = finished (own_handle s.registry) (
          continue res
            (λ events. and_then clear_pending (pure events))
            (record s { world = w; registry = r })) in
        (x.0 ≡ decoded_tuples p w es s) × (x.1.pending ≡ [])
  drained p w es s res program agrees e =
      let r = (drain (own_handle s.registry) (while_forwarding s.registry es)).1 in
      let r' = close (own_handle s.registry) r in
      let (decoded, kept) =
        tuples-Gives (record (view lib p w s) { registry = r'; pending = [] }) es
          (record s { world = w; registry = r'; pending = [] })
          (record {
            program = program;
            world = refl;
            table = refl;
            registry = refl;
            pending = refl;
            agrees = agrees;
          }) in
      subst
        (λ y.
          let x = finished (own_handle s.registry) (
            continue y (λ events. and_then clear_pending (pure events))
              (record s { world = w; registry = r })) in
          (x.0 ≡ decoded_tuples p w es s) × (x.1.pending ≡ []))
        e (decoded, kept.pending)

  checked :
      (p : Program) (w : W) (es : List (String × List ℤ)) (s : EasySession W)
      (r : Result (Unit {0}))
      → s.schema_program ≡ some p
      → CacheAgrees lib p w s
      → let x = finished (own_handle s.registry) (
          continue r
            (λ _.
              bind
                (easy_drain (own_handle s.registry))
                (λ events. and_then clear_pending (pure events)))
            (record s { world = w; registry = while_forwarding s.registry es })) in
        (x.0 ≡ after r (decoded_tuples p w es s)) × (x.1.pending ≡ inputs_after r s.pending)
  unfolding easy_drain
  checked p w es s (ok _) program agrees =
      drained p w es s _ program agrees (sym (drain-forwards s.registry es))
  checked p w es s (err e) program agrees = (refl, refl)

  easy_require_query :
      (s : EasySession W) → s.mode ≡ Mode.query → easy_require_mode lib Mode.query s ≡ (ok tt, s)
  unfolding easy_require_mode easy_mode_from
  easy_require_query s e = ap (λ m. easy_mode_from lib m Mode.query s) e

  -- A `snapshot` of a session in query mode, where the engine only forwards tuples to the token of the
  -- snapshot's own slot and the schemas in the cache are the program's: it raises what `check` makes of
  -- the engine's code, and keeps the inputs alive then; else it lets go of the inputs and returns the
  -- tuples in order, each decoded by the program's schema of its relation.
  pub easy_snapshot-forwards :
      (p : Program) (relation : String) (s : EasySession W) (rc : ℤ) (es : List (String × List ℤ))
      (w : W)
      → s.mode ≡ Mode.query
      → lib.snapshot s.handle relation (s.registry.next_token % 2 ^ 64) s.world
        ≡ ((rc, forwards s.registry.next_token es), w)
      → s.schema_program ≡ some p
      → CacheAgrees lib p w s
      → let (res, s') = easy_snapshot lib relation s in
        (res ≡ after (check rc) (decoded_tuples p w es s))
        × (s'.pending ≡ inputs_after (check rc) s.pending)
  unfolding easy_snapshot easy_snapshot_events easy_with_handle easy_run user_data new_handle
  easy_snapshot-forwards p relation s rc es w mode runs program agrees =
      rw (easy_require_query s mode, runs) (checked p w es s (check rc) program agrees)
