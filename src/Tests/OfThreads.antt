-- ===== src/Tests/OfThreads.antt =====
-- Threads that step one session (src/pyrewire/session.py), with concrete events.
use pyre_wire.Prelude.{ℕ, ◌≡◌, ◌≢◌, refl, ◌∙◌, none, some, [], ◌∷◌, ◌++◌, nat_eq, inl, inr}
use pyre_wire.Prelude.Int.{pos}
use pyre_wire.Callbacks.{Event}
use pyre_wire.Session.Threads.{
  here, next, start, turn, Phase, outside, inside, returned, copied, Threads, idle, move, enter,
  report, leave, copy, clear, Reaches, Alone, Serial, at-cases,
}
use pyre_wire.Session.Threads.Lock.{Reaches-exclusive}
use pyre_wire.Session.Threads.Queue.{Serial-results, step-may_lose}

abbrev edge : Event
edge = Event.delta "edge" (pos 3 ∷ pos 4 ∷ []) (pos 1)

abbrev path : Event
path = Event.delta "path" (pos 3 ∷ pos 4 ∷ []) (pos 1)

abbrev entered : Threads
entered = record idle { phase = move idle 0 inside; lock = some 0 }

abbrev reported : Threads
reported = record entered { queue = edge ∷ []; recorded = edge ∷ [] }

abbrev left : Threads
left = record reported { phase = move reported 0 returned; lock = none }

abbrev drained : Threads
drained = record left { phase = move left 0 (copied (edge ∷ [])) }

abbrev ended : Threads
ended = record drained { phase = move drained 0 outside; queue = []; results = edge ∷ [] }

-- A move of the only thread.
Alone-move : (s : Threads) (x : Phase) → Alone 0 s → (u : ℕ) → u ≢ 0 → move s 0 x u ≡ outside
Alone-move s x alone u h = elim (at-cases s.phase 0 x u) [
  | inl (same, _) ↦ absurd (h same)
  | inr (_, kept) ↦ kept ∙ alone u h
]

one_call : Serial ended
one_call =
    let a : Alone 0 entered = Alone-move idle inside (λ u h. refl) in
    let b : Alone 0 left = Alone-move reported returned a in
    let c : Alone 0 drained = Alone-move left (copied (edge ∷ [])) b in
    let r2 : Serial reported =
      turn 0 (turn 0 start (λ u h. refl) (enter idle refl refl)) a (report entered edge refl) in
    let r4 : Serial drained = turn 0 (turn 0 r2 a (leave reported refl)) b (copy left refl) in
    turn 0 r4 c (clear drained (edge ∷ []) refl)

Serial-results_example : ended.results ++ ended.queue ≡ ended.recorded
Serial-results_example = Serial-results one_call

-- The first thread in the engine, which reports an event.
in_engine : Reaches reported
in_engine = next 0 (next 0 here (enter idle refl refl)) (report entered edge refl)

Reaches-exclusive_example : (reported.lock ≡ some 0) × ((u : ℕ) → reported.phase u ≡ inside → u ≡ 0)
Reaches-exclusive_example = Reaches-exclusive 0 in_engine refl

step-may_lose_example :
    (s : Threads) × Reaches s
    × (s.phase 0 ≡ outside)
    × (s.phase 1 ≡ outside)
    × (s.recorded ≡ edge ∷ path ∷ [])
    × (s.results ≡ edge ∷ [])
    × (s.queue ≡ [])
step-may_lose_example = step-may_lose edge path
