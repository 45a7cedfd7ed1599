-- ===== src/Callbacks/Slots.antt =====
-- Slots of the callback registry (src/pyrewire/_core/callbacks.py).
use pyre_wire.Prelude.{
  ℕ, ◌≤◌, ◌<◌, ◌≡◌, ◌≢◌, refl, true, false, Option, List, [], ◌∷◌, arith, nat_eq,
}
use pyre_wire.Callbacks.{
  Kind, UserFn, fresh_state, Registry, CallbackHandle, new_handle, Invocation, invoke, invoke_all,
  drain, close,
}

-- No token that is still to come is in the registry, and 0, which stands for no `user_data`, is not.
pub record IsValid (r : Registry) : Type 0 where
  pub started : 0 < r.next_token
  pub null : r.live 0 ≡ false
  pub unused : (t : ℕ) → r.next_token ≤ t → r.live t ≡ false

pub new_handle-IsValid :
    (k : Kind) (f : Option UserFn) (r : Registry) → IsValid r → IsValid (new_handle k f r).1
unfolding new_handle
new_handle-IsValid k f r v = record {
  started = omega arith;
  null = ground (arith, v.null, v.started);
  unused = λ t h. ground (arith, v.unused t);
}

pub close-IsValid : (h : CallbackHandle) (r : Registry) → IsValid r → IsValid (close h r)
unfolding close
close-IsValid h r v = record {
  started = v.started;
  null = ground (arith, v.null);
  unused = λ t below. ground (arith, v.unused t);
}

-- The engine's calls and `drain` open and close no slot.
pub live-invoke :
    (i : Invocation) (r : Registry)
    → ((invoke i r).live ≡ r.live) × ((invoke i r).next_token ≡ r.next_token)
unfolding invoke
live-invoke i r = ground arith

pub live-invoke_all :
    (is : List Invocation) (r : Registry)
    → ((invoke_all is r).live ≡ r.live) × ((invoke_all is r).next_token ≡ r.next_token)
unfolding invoke_all
live-invoke_all [] r = (refl, refl)
live-invoke_all (i ∷ is) r = ground (arith, live-invoke i r, live-invoke_all is (invoke i r))

pub invoke_all-IsValid :
    (is : List Invocation) (r : Registry) → IsValid r → IsValid (invoke_all is r)
invoke_all-IsValid is r v =
    let (l, n) = live-invoke_all is r in
    record {
      started = rw n v.started;
      null = rw l v.null;
      unused = λ t h. rw l (v.unused t (rw n at h));
    }

pub drain-IsValid : (h : CallbackHandle) (r : Registry) → IsValid r → IsValid (drain h r).1
unfolding drain
drain-IsValid h r v = record { started = v.started; null = v.null; unused = v.unused }

-- A new handle's slot was free, and every other slot is as it was.
pub new_handle-fresh :
    (k : Kind) (f : Option UserFn) (r : Registry)
    → IsValid r
    → let (h, r') = new_handle k f r in
      (r.live h.token ≡ false)
      × (h.token ≢ 0)
      × (r'.live h.token ≡ true)
      × (r'.states h.token ≡ fresh_state f)
      × ((t : ℕ) → t ≢ h.token → (r'.live t ≡ r.live t) × (r'.states t ≡ r.states t))
unfolding new_handle
new_handle-fresh k f r v = (
  v.unused r.next_token (omega arith),
  (λ e. omega (arith, v.started)),
  ground arith,
  ground arith,
  λ t other. (ground arith, ground arith),
)
