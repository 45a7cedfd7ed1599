-- ===== src/Callbacks.antt =====
-- src/pyrewire/_core/callbacks.py: the registry of trampolines. The engine calls a trampoline with
-- the token that it was given as `user_data`; a handle owns the registry's slot of its token.
-- A slot's state object is shared by the handle and the registry, so it outlives its entry in the
-- registry: `states` is the heap of these objects, `live` the keys of `_REGISTRY`.
pub mod Slots
pub mod Delivery
use pyre_wire.Prelude.{
  ℕ, zero, suc, ◌+◌, ◌%◌, ◌^◌, String, Bool, true, false, Option, none, some, List, [], ◌∷◌, ◌++◌,
  ◌==◌, nat_eq, if◌then◌else◌, string_eq,
}
use pyre_wire.Prelude.Int.{ℤ}
use pyre_wire.Python.Result.{Exc, Result, ok, err, ◌>>=◌, value_error}
use pyre_wire.Python.Value.{Value}
use pyre_wire.Ffi.Types.{CString, decode_or, RowPointer, TypedRow}
use pyre_wire.Lanes.{decode_typed_row}

pub data Kind : Type 0 where
  delta tuple typed_delta : Kind

-- The `kind` argument of `CallbackHandle`.
unfoldable pub kind_of : String → Result Kind
kind_of s =
    if s == "delta"
    then ok delta
    else if s == "tuple"
    then ok tuple
    else if s == "typed_delta"
    then ok typed_delta
    else err value_error

-- The buffered payloads; the constructor is the first element of the source's tuple.
pub data Event : Type 0 where
  delta : String → List ℤ → ℤ → Event
  tuple : String → List ℤ → Event
  typed_delta : String → List Value → ℤ → Event

-- A decoded delta, as a caller's function receives it.
abbrev pub Delta : Type 0
Delta = String × List Value × ℤ

-- A caller's function returns or raises.
abbrev pub UserFn : Type 0
UserFn = Delta → Result (Unit {0})

-- `_TrampolineState`
pub record State : Type 0 where
  pub queue : List Event
  pub user_fn : Option UserFn
  pub last_error : Option Exc

abbrev pub fresh_state : Option UserFn → State
fresh_state f = record { queue = []; user_fn = f; last_error = none }

pub record Registry : Type 0 where
  pub next_token : ℕ
  pub live : ℕ → Bool
  pub states : ℕ → State

pub record CallbackHandle : Type 0 where
  pub kind : Kind
  pub token : ℕ

abbrev pub at {ℓ} : {A : Type ℓ} → (ℕ → A) → ℕ → A → ℕ → A
at f k a n = if k == n then a else f n

abbrev pub with_state : Registry → ℕ → State → Registry
with_state r t s = record r { states = at r.states t s }

-- `CallbackHandle(kind, user_fn)`, with `_next_token`
unfoldable pub new_handle : Kind → Option UserFn → Registry → CallbackHandle × Registry
new_handle k f r =
    let t = r.next_token in
    (
      record { kind = k; token = t },
      record {
        next_token = t + 1;
        live = at r.live t true;
        states = at r.states t (fresh_state f);
      },
    )

-- `handle.user_data`, a `void *`
unfoldable pub user_data : CallbackHandle → ℕ
user_data h = h.token % 2 ^ 64

-- `relation.decode() if relation else ""`
abbrev pub decode_relation : CString → Result String
decode_relation = decode_or ""

-- `tuple(int(row[i]) for i in range(n))`; indexing a NULL pointer is a `ValueError`.
unfoldable pub read_row : RowPointer → Result (List ℤ)
read_row (RowPointer.null_row zero) = ok []
read_row (RowPointer.null_row (suc n)) = err value_error
read_row (RowPointer.cells vs) = ok vs

-- A call of one of the three trampolines by the engine, `user_data` last.
pub data Invocation : Type 0 where
  on_delta : CString → RowPointer → ℤ → ℕ → Invocation
  on_tuple : CString → RowPointer → ℕ → Invocation
  on_typed_delta : CString → Option TypedRow → ℤ → ℕ → Invocation

unfoldable pub token_of : Invocation → ℕ
token_of (on_delta rel row diff t) = t
token_of (on_tuple rel row t) = t
token_of (on_typed_delta rel row diff t) = t

-- The body of a trampoline's `try` past the lookup: the event to queue, or nothing to queue.
unfoldable pub event_of : Invocation → Result (Option Event)
event_of (on_delta rel row diff t) = do
  s ← decode_relation rel
  vs ← read_row row
  ok (some (Event.delta s vs diff))
event_of (on_tuple rel row t) = do
  s ← decode_relation rel
  vs ← read_row row
  ok (some (Event.tuple s vs))
event_of (on_typed_delta rel none diff t) = ok none
event_of (on_typed_delta rel (some row) diff t) = do
  s ← decode_relation rel
  vs ← decode_typed_row row
  ok (some (Event.typed_delta s vs diff))

-- An exception is kept in the slot, and never passed to the engine.
unfoldable pub record_event : Result (Option Event) → State → State
record_event (ok none) s = s
record_event (ok (some e)) s = record s { queue = s.queue ++ e ∷ [] }
record_event (err e) s = record s { last_error = some e }

unfoldable pub invoke : Invocation → Registry → Registry
invoke i r =
    let t = token_of i in
    if r.live t then with_state r t (record_event (event_of i) (r.states t)) else r

-- The invocations that the engine makes during one call, in order.
unfoldable pub invoke_all : List Invocation → Registry → Registry
invoke_all [] r = r
invoke_all (i ∷ is) r = invoke_all is (invoke i r)

-- The result of `drain`, and the state that it leaves.
unfoldable pub drain_state : State → Result (List Event) × State
drain_state s = elim s.last_error [
  | none ↦ (ok s.queue, record s { queue = [] })
  | some e ↦ (err e, record s { queue = []; last_error = none })
]

unfoldable pub drain : CallbackHandle → Registry → Result (List Event) × Registry
unfolding drain_state
drain h r = let (res, s) = drain_state (r.states h.token) in (res, with_state r h.token s)

-- `_REGISTRY.pop(self.token, None)`
unfoldable pub close : CallbackHandle → Registry → Registry
close h r = record r { live = at r.live h.token false }
