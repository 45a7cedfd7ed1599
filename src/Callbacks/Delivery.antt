-- ===== src/Callbacks/Delivery.antt =====
-- What a callback handle delivers (src/pyrewire/_core/callbacks.py), against a description by
-- recursion on the engine's calls.
use pyre_wire.Prelude.{
  ℕ, ◌≡◌, refl, ap, ◌∙◌, true, false, Option, none, some, List, [], ◌∷◌, ◌++◌, arith, ◌==◌, nat_eq,
  if◌then◌else◌, append_assoc, append-nil, All,
}
use pyre_wire.Python.Result.{Exc, Result, ok, err}
use pyre_wire.Callbacks.Slots.{live-invoke}
use pyre_wire.Callbacks.{
  UserFn, State, Registry, CallbackHandle, Event, Invocation, token_of, event_of, invoke,
  invoke_all, record_event, drain, close,
}

-- The event that one call adds to those of the calls after it.
abbrev cons_event : Result (Option Event) → List Event → List Event
cons_event (ok (some e)) rest = e ∷ rest
cons_event (ok none) rest = rest
cons_event (err x) rest = rest

-- The events that the calls with the token carry, in their order.
abbrev pub received : ℕ → List Invocation → List Event
received t [] = []
received t (i ∷ is) =
    let rest = received t is in if token_of i == t then cons_event (event_of i) rest else rest

abbrev later_error : Result (Option Event) → Option Exc → Option Exc
later_error (ok e) x = x
later_error (err e) x = some e

-- The exception of the last call with the token that raised one, else the one before.
abbrev pub failure : ℕ → List Invocation → Option Exc → Option Exc
failure t [] x = x
failure t (i ∷ is) x = failure t is (if token_of i == t then later_error (event_of i) x else x)

record_event_lem :
    (r : Result (Option Event)) (s : State) (rest : List Event)
    → ((record_event r s).queue ++ rest ≡ s.queue ++ cons_event r rest)
      × ((record_event r s).user_fn ≡ s.user_fn)
      × ((record_event r s).last_error ≡ later_error r s.last_error)
unfolding record_event
record_event_lem (ok none) s rest = (refl, refl, refl)
record_event_lem (ok (some e)) s rest = (append_assoc s.queue (e ∷ []) rest, refl, refl)
record_event_lem (err x) s rest = (refl, refl, refl)

states-invoke :
    (t : ℕ) (i : Invocation) (r : Registry)
    → r.live t ≡ true
    → (invoke i r).states t
      ≡ (if token_of i == t then record_event (event_of i) (r.states t) else r.states t)
unfolding invoke
states-invoke t i r live = ground (arith, live)

-- A slot's state with the calls' events and the last exception added.
abbrev pub collect : ℕ → List Invocation → State → State
collect t is s = record {
  queue = s.queue ++ received t is;
  user_fn = s.user_fn;
  last_error = failure t is s.last_error;
}

collect-cons :
    (t : ℕ) (i : Invocation) (is : List Invocation) (s : State)
    → collect t is (if token_of i == t then record_event (event_of i) s else s)
      ≡ collect t (i ∷ is) s
collect-cons t i is s =
    let (q, u, x) = record_event_lem (event_of i) s (received t is) in ground (arith, q, u, x)

-- The state of a live slot after the engine's calls.
pub states-invoke_all :
    (t : ℕ) (is : List Invocation) (r : Registry)
    → r.live t ≡ true
    → (invoke_all is r).states t ≡ collect t is (r.states t)
unfolding invoke_all
states-invoke_all t [] r live = rw append-nil
states-invoke_all t (i ∷ is) r live =
    states-invoke_all t is (invoke i r) (ground (arith, live-invoke i r))
    ∙ ap (collect t is) (states-invoke t i r live)
    ∙ collect-cons t i is (r.states t)

abbrev empty_state : Option UserFn → State
empty_state f = record { queue = []; user_fn = f; last_error = none }

empty_state_lem : (s : State) → s.queue ≡ [] → s.last_error ≡ none → s ≡ empty_state s.user_fn
empty_state_lem s q x = ground arith

-- `drain` after the engine's calls, on a live handle with an empty queue and no exception: every
-- event of the handle's token, in order and no other; but if one of its calls raised, the last
-- exception. A second `drain` finds nothing.
pub drain-invoke_all :
    (h : CallbackHandle) (is : List Invocation) (r : Registry)
    → r.live h.token ≡ true
    → (r.states h.token).queue ≡ []
    → (r.states h.token).last_error ≡ none
    → let (res, r') = drain h (invoke_all is r) in
      (res ≡ elim (failure h.token is none) [ none ↦ ok (received h.token is) | some e ↦ err e ])
      × ((drain h r').0 ≡ ok [])
unfolding drain
drain-invoke_all h is r live no_events no_error =
    let e : (invoke_all is r).states h.token
        ≡ collect h.token is (empty_state (r.states h.token).user_fn) =
      states-invoke_all h.token is r live
      ∙ ap (collect h.token is) (empty_state_lem (r.states h.token) no_events no_error) in
    ground (arith, e)

-- The user's function of a slot stays over the engine's calls and a `drain`.
pub drain-user_fn :
    (h : CallbackHandle) (is : List Invocation) (r : Registry)
    → r.live h.token ≡ true
    → ((drain h (invoke_all is r)).1.states h.token).user_fn ≡ (r.states h.token).user_fn
unfolding drain
drain-user_fn h is r live =
    let e : (invoke_all is r).states h.token ≡ collect h.token is (r.states h.token) =
      states-invoke_all h.token is r live in
    ground (arith, e)

-- A call with a token that is not in the registry changes nothing.
pub invoke_dead : (i : Invocation) (r : Registry) → r.live (token_of i) ≡ false → invoke i r ≡ r
unfolding invoke
invoke_dead i r dead = rw dead

closed_dead : (h : CallbackHandle) (r : Registry) → (close h r).live h.token ≡ false
unfolding close
closed_dead h r = ground arith

-- A closed handle's token does nothing: its calls leave the whole registry alone.
pub invoke_all-close :
    (h : CallbackHandle) (is : List Invocation) (r : Registry)
    → All (λ i. token_of i ≡ h.token) is
    → invoke_all is (close h r) ≡ close h r
unfolding invoke_all
invoke_all-close h [] r same = refl
invoke_all-close h (i ∷ is) r same =
    ap (invoke_all is) (invoke_dead i (close h r) (rw same.0 (closed_dead h r)))
    ∙ invoke_all-close h is r same.1
