-- ===== src/Session/Deltas/Typed.antt =====
-- What `step_typed` returns (src/pyrewire/session.py), against the descriptors that the engine sends.
use pyre_wire.Prelude.{
  ℕ, ◌%◌, ◌^◌, ◌≡◌, refl, sym, ap, ap₂, ◌∙◌, String, true, none, some, List, [], ◌∷◌, arith, ◌==◌,
  nat_eq, if◌then◌else◌, string_eq,
}
use text.Mathlib.TextEquality.{eq_iff}
use pyre_wire.Prelude.Int.{ℤ, pos}
use pyre_wire.Python.Result.{
  Result, ok, err, traverse, ◌>>=◌, >>=-eq-ok, ok-injective, wirelog, version_error,
}
use pyre_wire.Python.Exec.{continue, lift}
use pyre_wire.Python.Value.{Value}
use pyre_wire.Errors.{check}
use pyre_wire.Ffi.Types.{CString, TypedRow, decode_or}
use pyre_wire.Lanes.{decode_typed_row}
use pyre_wire.Callbacks.{Kind, CallbackHandle, Event, Invocation, event_of, token_of, new_handle}
use pyre_wire.Callbacks.Delivery.{received, failure}
use pyre_wire.Session.Object.{Session, SessionLib, Mode}
use pyre_wire.Session.Updates.{require_typed_row_api}
use pyre_wire.Session.Deltas.{set_cb, step_events, step_typed, typed_payload}
use pyre_wire.Session.Deltas.First.{step_events-first}
use pyre_wire.Session.Deltas.Delivery.{IsArmed, after, or_failure, step_events-IsArmed}

-- The calls by which the engine reports typed deltas to a token.
abbrev pub typed_reports : ℕ → List (String × TypedRow × ℤ) → List Invocation
typed_reports t [] = []
typed_reports t ((rel, d, diff) ∷ ds) =
    Invocation.on_typed_delta (CString.text rel) (some d) diff t ∷ typed_reports t ds

-- A typed delta with its row decoded from the descriptor.
abbrev pub decode_report : String × TypedRow × ℤ → Result (String × List Value × ℤ)
decode_report (rel, d, diff) = decode_typed_row d >>= λ row. ok (rel, row, diff)

abbrev typed_events : List (String × List Value × ℤ) → List Event
typed_events [] = []
typed_events ((rel, row, diff) ∷ es) = Event.typed_delta rel row diff ∷ typed_events es

empty_name : (s : String) → (if s == "" then "" else s) ≡ s
empty_name s = ground (arith, eq_iff s "")

event_of-typed :
    (rel : String) (d : TypedRow) (diff : ℤ) (t : ℕ) {row : List Value}
    → decode_typed_row d ≡ ok row
    → event_of (Invocation.on_typed_delta (CString.text rel) (some d) diff t)
      ≡ ok (some (Event.typed_delta rel row diff))
unfolding event_of decode_or
event_of-typed rel d diff t {row} decoded =
    rw decoded (ap (λ x. ok (some (Event.typed_delta x row diff))) (empty_name rel))

-- The calls carry the decoded deltas, and none raises.
collected :
    (t : ℕ) (ds : List (String × TypedRow × ℤ)) (es : List (String × List Value × ℤ))
    → traverse decode_report ds ≡ ok es
    → (received t (typed_reports t ds) ≡ typed_events es)
      × (failure t (typed_reports t ds) none ≡ none)
unfolding token_of
collected t [] es h = (rw (← ok-injective h) refl, refl)
collected t ((rel, d, diff) ∷ ds) es h =
    let (y, first, h1) = >>=-eq-ok (decode_report (rel, d, diff)) _ h in
    let (ys, rest, h2) = >>=-eq-ok (traverse decode_report ds) (λ ys. ok (y ∷ ys)) h1 in
    let (row, decoded, named) = >>=-eq-ok (decode_typed_row d) (λ row. ok (rel, row, diff)) first in
    let (events, no_failure) = collected t ds ys rest in
    let call = event_of-typed rel d diff t decoded in
    let all : typed_events es ≡ Event.typed_delta rel row diff ∷ typed_events ys =
      ap typed_events (sym (ok-injective h2) ∙ ap (λ x. x ∷ ys) (sym (ok-injective named))) in
    (rw (call, events, all) (ground arith), ground (arith, call, no_failure))

payloads_lem :
    (es : List (String × List Value × ℤ)) → traverse typed_payload (typed_events es) ≡ ok es
payloads_lem [] = refl
payloads_lem ((rel, row, diff) ∷ es) = rw (payloads_lem es)

payloads_after :
    {S : Type 0} (es : List (String × List Value × ℤ)) (x : Result (List Event) × S)
    (r : Result (Unit {0}))
    → x.0 ≡ after r (ok (typed_events es))
    → (continue x.0 (λ events. lift (traverse typed_payload events)) x.1).0 ≡ after r (ok es)
payloads_after es x (ok _) e = rw e (payloads_lem es)
payloads_after es x (err y) e = rw e refl

module _ {W : Type 0} (lib : SessionLib W) where
  pub api_there : (s : Session W) → lib.typed_rows ≡ true → require_typed_row_api lib s ≡ (ok tt, s)
  unfolding require_typed_row_api
  api_there s api = ap (λ b. if b then (ok tt, s) else (err (wirelog version_error), s)) api

  -- An armed `step_typed`, on an engine with the typed entry points: if the engine only
  -- reports typed deltas to the session's token and every descriptor decodes, the decoded deltas are
  -- returned in their order, unless `check` raises on the engine's code.
  pub step_typed-reports :
      (h : CallbackHandle) (s : Session W) (rc : ℤ) (ds : List (String × TypedRow × ℤ))
      (es : List (String × List Value × ℤ)) (w : W)
      → lib.typed_rows ≡ true
      → IsArmed Kind.typed_delta h s
      → lib.step s.handle s.world ≡ ((rc, typed_reports h.token ds), w)
      → traverse decode_report ds ≡ ok es
      → (step_typed lib s).0 ≡ after (check rc) (ok es)
  unfolding step_typed
  step_typed-reports h s rc ds es w api a runs decoded =
      let (events, no_failure) = collected h.token ds es decoded in
      rw (api_there s api) (
        payloads_after es (step_events lib Kind.typed_delta s) (check rc) (
          step_events-IsArmed lib Kind.typed_delta h s rc (typed_reports h.token ds) w a runs
          ∙ ap (after (check rc)) (ap₂ or_failure no_failure events)))

  -- The same of the first `step_typed`, which registers the callback.
  pub step_typed-first :
      (s : Session W) (rc : ℤ) (ds : List (String × TypedRow × ℤ))
      (es : List (String × List Value × ℤ)) (w w' : W)
      → lib.typed_rows ≡ true
      → s.mode ≡ Mode.incremental
      → s.delta_cb ≡ none
      → lib.set_typed_delta_cb s.handle (some (s.registry.next_token % 2 ^ 64)) s.world ≡ (pos 0, w)
      → lib.step s.handle w ≡ ((rc, typed_reports s.registry.next_token ds), w')
      → traverse decode_report ds ≡ ok es
      → (step_typed lib s).0 ≡ after (check rc) (ok es)
  unfolding step_typed new_handle set_cb
  step_typed-first s rc ds es w w' api mode no_cb accepts runs decoded =
      let t = s.registry.next_token in
      let (events, no_failure) = collected t ds es decoded in
      rw (api_there s api) (
        payloads_after es (step_events lib Kind.typed_delta s) (check rc) (
          step_events-first lib Kind.typed_delta s rc (typed_reports t ds) w w' mode no_cb accepts
            runs
          ∙ ap (after (check rc)) (ap₂ or_failure no_failure events)))
