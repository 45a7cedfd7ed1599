-- ===== src/Session/Threads.antt =====
-- Threads that call `step` on one session that has a lock and an armed callback
-- (src/pyrewire/session.py, and `drain` of src/pyrewire/_core/callbacks.py). The lock is held around
-- the call of the engine and not around `drain`, which copies the queue and then clears it.
-- A trampoline that raises is left out, as are the calls that replace the callback.
pub mod Lock
pub mod Queue
use pyre_wire.Prelude.{
  ℕ, ◌≡◌, ◌≢◌, ◌⊎◌, refl, Option, none, some, List, [], ◌∷◌, ◌++◌, arith, ◌==◌, nat_eq,
  if◌then◌else◌, Bool-cases, inl, inr,
}
use pyre_wire.Callbacks.{Event, at}

-- Where a thread is: in no call of `step`, in the engine with the lock, past it, and in `drain` after
-- `list(queue)` with the copy.
pub data Phase : Type 0 where
  outside inside returned : Phase
  copied : List Event → Phase

-- The threads by their numbers, the holder of the lock, the queue of the armed callback, the events
-- that the trampoline has recorded, and those that the calls of `step` have returned.
pub record Threads : Type 0 where
  pub phase : ℕ → Phase
  pub lock : Option ℕ
  pub queue : List Event
  pub recorded : List Event
  pub results : List Event

abbrev pub idle : Threads
idle = record { phase = λ t. outside; lock = none; queue = []; recorded = []; results = [] }

abbrev pub move : Threads → ℕ → Phase → ℕ → Phase
move s t x = at s.phase t x

-- What thread `t` can do next.
pub data Step (t : ℕ) : Threads → Threads → Type 0 where
  -- `with self._serialize()`, once the lock is free.
  enter :
      (s : Threads)
      → s.phase t ≡ outside
      → s.lock ≡ none
      → Step t s (record s { phase = move s t inside; lock = some t })
  -- The engine calls the trampoline, which queues an event.
  report :
      (s : Threads) (e : Event)
      → s.phase t ≡ inside
      → Step t s (record s { queue = s.queue ++ e ∷ []; recorded = s.recorded ++ e ∷ [] })
  -- The engine returns, and the lock is released.
  leave :
      (s : Threads)
      → s.phase t ≡ inside
      → Step t s (record s { phase = move s t returned; lock = none })
  -- `check` raises.
  refuse : (s : Threads) → s.phase t ≡ returned → Step t s (record s { phase = move s t outside })
  -- `events = list(self._state.queue)`
  copy :
      (s : Threads)
      → s.phase t ≡ returned
      → Step t s (record s { phase = move s t (copied s.queue) })
  -- `self._state.queue.clear()`, and `step` returns the copy.
  clear :
      (s : Threads) (es : List Event)
      → s.phase t ≡ copied es
      → Step t s (record s { phase = move s t outside; queue = []; results = s.results ++ es })

-- The threads run in any order.
pub data Reaches : Threads → Type 0 where
  here : Reaches idle
  next : {q r : Threads} (t : ℕ) → Reaches q → Step t q r → Reaches r

-- No other thread is in a call of `step`.
abbrev pub Alone : ℕ → Threads → Type 0
Alone t s = (u : ℕ) → u ≢ t → s.phase u ≡ outside

-- The calls do not overlap.
pub data Serial : Threads → Type 0 where
  start : Serial idle
  turn : {q r : Threads} (t : ℕ) → Serial q → Alone t q → Step t q r → Serial r

pub at-cases :
    (f : ℕ → Phase) (t : ℕ) (x : Phase) (u : ℕ)
    → ((u ≡ t) × (at f t x u ≡ x)) ⊎ ((u ≢ t) × (at f t x u ≡ f u))
at-cases f t x u = elim (Bool-cases (t == u)) [
  | inl same ↦ inl (ground arith, rw same refl)
  | inr other ↦ inr (λ e. ground arith, rw other refl)
]

pub same-cases : (t u : ℕ) → (u ≡ t) ⊎ (u ≢ t)
same-cases t u = elim (Bool-cases (t == u)) [
  | inl same ↦ inl (ground arith)
  | inr other ↦ inr (λ e. ground arith)
]
