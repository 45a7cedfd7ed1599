-- ===== src/Session/Deltas/Delivery.antt =====
-- What `step` returns (src/pyrewire/session.py), against a description of the engine's calls.
use pyre_wire.Prelude.{
  ℕ, String, ◌≡◌, true, ◌≢◌, refl, ap, ap₂, ◌∙◌, sym, Option, none, some, List, [], ◌∷◌, arith,
  ◌==◌, nat_eq, if◌then◌else◌, string_eq,
}
use pyre_wire.Prelude.Int.{ℤ}
use pyre_wire.Python.Result.{Exc, Result, ok, err, traverse}
use pyre_wire.Python.Exec.{continue, pure, lift, ◌>>=◌, ◌>>◌}
use text.Mathlib.TextEquality.{eq_iff}
use pyre_wire.Errors.{check}
use pyre_wire.Ffi.Types.{CString, RowPointer, decode_or}
use pyre_wire.Callbacks.{
  Kind, CallbackHandle, Invocation, Event, event_of, read_row, token_of, invoke_all,
}
use pyre_wire.Callbacks.Delivery.{received, failure, drain-invoke_all}
use pyre_wire.Session.Object.{Session, SessionLib, Mode, require_mode, require_from}
use pyre_wire.Session.Deltas.{
  run_engine, run_step, drain_handle, step_handle_from, arm, replace_cb, step_handle, step_events,
  step, delta_payload, is_kind,
}

-- The session's callback is the handle, of the kind, with a live slot and nothing left to deliver.
pub record IsArmed {W : Type 0} (k : Kind) (h : CallbackHandle) (s : Session W) : Type 0 where
  pub mode : s.mode ≡ Mode.incremental
  pub callback : s.delta_cb ≡ some h
  pub kind : h.kind ≡ k
  pub live : s.registry.live h.token ≡ true
  pub no_events : (s.registry.states h.token).queue ≡ []
  pub no_error : (s.registry.states h.token).last_error ≡ none

-- The calls by which the engine reports deltas to a token.
abbrev pub reports : ℕ → List (String × List ℤ × ℤ) → List Invocation
reports t [] = []
reports t ((rel, row, diff) ∷ ds) =
    Invocation.on_delta (CString.text rel) (RowPointer.cells row) diff t ∷ reports t ds

abbrev pub events_of : List (String × List ℤ × ℤ) → List Event
events_of [] = []
events_of ((rel, row, diff) ∷ ds) = Event.delta rel row diff ∷ events_of ds

empty_name : (s : String) → (if s == "" then "" else s) ≡ s
empty_name s = ground (arith, eq_iff s "")

event_of-report :
    (rel : String) (row : List ℤ) (diff : ℤ) (t : ℕ)
    → event_of (Invocation.on_delta (CString.text rel) (RowPointer.cells row) diff t)
      ≡ ok (some (Event.delta rel row diff))
unfolding event_of decode_or read_row
event_of-report rel row diff t = ap (λ x. ok (some (Event.delta x row diff))) (empty_name rel)

received-reports :
    (t : ℕ) (ds : List (String × List ℤ × ℤ)) → received t (reports t ds) ≡ events_of ds
unfolding token_of
received-reports t [] = refl
received-reports t ((rel, row, diff) ∷ ds) =
    rw (event_of-report rel row diff t, received-reports t ds) (ground arith)

failure-reports : (t : ℕ) (ds : List (String × List ℤ × ℤ)) → failure t (reports t ds) none ≡ none
unfolding token_of
failure-reports t [] = refl
failure-reports t ((rel, row, diff) ∷ ds) =
    ground (arith, event_of-report rel row diff t, failure-reports t ds)

payloads_lem : (ds : List (String × List ℤ × ℤ)) → traverse delta_payload (events_of ds) ≡ ok ds
payloads_lem [] = refl
payloads_lem ((rel, row, diff) ∷ ds) = rw (payloads_lem ds)

abbrev pub or_failure : Option Exc → List Event → Result (List Event)
or_failure none es = ok es
or_failure (some e) es = err e

-- The events of the calls, or the last exception among them.
abbrev pub delivered : CallbackHandle → List Invocation → Result (List Event)
delivered h calls = or_failure (failure h.token calls none) (received h.token calls)

-- What a result is once a check before it has passed.
abbrev pub after : {A : Type 0} → Result (Unit {0}) → Result A → Result A
after (ok _) r = r
after (err e) r = err e

is_kind_refl : (k : Kind) → is_kind k k ≡ true
is_kind_refl Kind.delta = refl
is_kind_refl Kind.tuple = refl
is_kind_refl Kind.typed_delta = refl

pub or_failure_lem :
    (x : Option Exc) (es : List Event) → elim x [ none ↦ ok es | some e ↦ err e ] ≡ or_failure x es
or_failure_lem none es = refl
or_failure_lem (some e) es = refl

-- A call of the engine, then the delivery, if its code is one of success.
pub deliver_lem :
    {W : Type 0} (h : CallbackHandle) (s : Session W) (calls : List Invocation)
    (r : Result (Unit {0}))
    → s.registry.live h.token ≡ true
    → (s.registry.states h.token).queue ≡ []
    → (s.registry.states h.token).last_error ≡ none
    → (continue r (λ _. drain_handle h) (record s { registry = invoke_all calls s.registry })).0
      ≡ after r (delivered h calls)
unfolding drain_handle
deliver_lem h s calls (ok _) live no_events no_error =
    (drain-invoke_all h calls s.registry live no_events no_error).0
    ∙ or_failure_lem (failure h.token calls none) (received h.token calls)
deliver_lem h s calls (err e) live no_events no_error = refl

require_from_same :
    {W : Type 0} (s : Session W) (m want : Mode)
    → m ≡ want
    → m ≢ Mode.unset
    → require_from m want s ≡ (ok tt, s)
unfolding require_from
require_from_same s Mode.unset want same set = absurd (set refl)
require_from_same s Mode.incremental Mode.incremental same set = refl
require_from_same s Mode.query Mode.query same set = refl
require_from_same s Mode.incremental Mode.query same set = cc
require_from_same s Mode.incremental Mode.unset same set = cc
require_from_same s Mode.query Mode.incremental same set = cc
require_from_same s Mode.query Mode.unset same set = cc

-- A mode that is set, and wanted, is left.
pub require_mode_same :
    {W : Type 0} (s : Session W) (want : Mode)
    → s.mode ≡ want
    → want ≢ Mode.unset
    → require_mode want s ≡ (ok tt, s)
unfolding require_mode
require_mode_same s want same set = require_from_same s s.mode want same (λ e. set (sym same ∙ e))

pub payloads_after :
    {S : Type 0} (ds : List (String × List ℤ × ℤ)) (x : Result (List Event) × S)
    (r : Result (Unit {0}))
    → x.0 ≡ after r (ok (events_of ds))
    → (continue x.0 (λ es. lift (traverse delta_payload es)) x.1).0 ≡ after r (ok ds)
payloads_after ds x (ok _) e = rw e (payloads_lem ds)
payloads_after ds x (err y) e = rw e refl

pub delivered-reports :
    (h : CallbackHandle) (ds : List (String × List ℤ × ℤ))
    → delivered h (reports h.token ds) ≡ ok (events_of ds)
delivered-reports h ds = ap₂ or_failure (failure-reports h.token ds) (received-reports h.token ds)

module _ {W : Type 0} (lib : SessionLib W) where
  step_handle_same :
      (k : Kind) (h : CallbackHandle) (s : Session W)
      → s.delta_cb ≡ some h
      → h.kind ≡ k
      → step_handle lib k s ≡ (ok h, s)
  unfolding step_handle step_handle_from
  step_handle_same k h s callback kind =
      ap (λ c. step_handle_from lib k c s) callback
      ∙ ap (λ b. (if b then pure h else (do h' ← replace_cb lib k; arm lib h'; pure h')) s)
          (ap (λ j. is_kind j k) kind ∙ is_kind_refl k)

  pub step_events-IsArmed :
      (k : Kind) (h : CallbackHandle) (s : Session W) (rc : ℤ) (calls : List Invocation) (w : W)
      → IsArmed k h s
      → lib.step s.handle s.world ≡ ((rc, calls), w)
      → (step_events lib k s).0 ≡ after (check rc) (delivered h calls)
  unfolding step_events run_step run_engine
  step_events-IsArmed k h s rc calls w a runs =
      rw
        (
          require_mode_same s Mode.incremental a.mode (λ e. cc),
          step_handle_same k h s a.callback a.kind,
          runs,
        )
        (deliver_lem h (record s { world = w }) calls (check rc) a.live a.no_events a.no_error)

  -- A `step` of a session in incremental mode whose callback is armed and has nothing left to deliver,
  -- where the engine only reports deltas to the session's token: it raises what `check` makes of the
  -- engine's code, and else returns those deltas, in their order and each as it was reported.
  pub step-reports :
      (h : CallbackHandle) (s : Session W) (rc : ℤ) (ds : List (String × List ℤ × ℤ)) (w : W)
      → IsArmed Kind.delta h s
      → lib.step s.handle s.world ≡ ((rc, reports h.token ds), w)
      → (step lib s).0 ≡ after (check rc) (ok ds)
  unfolding step
  step-reports h s rc ds w a runs = payloads_after ds (step_events lib Kind.delta s) (check rc) (
      step_events-IsArmed Kind.delta h s rc (reports h.token ds) w a runs
      ∙ ap (after (check rc)) (delivered-reports h ds))
