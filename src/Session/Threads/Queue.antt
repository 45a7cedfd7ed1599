-- ===== src/Session/Threads/Queue.antt =====
-- What becomes of the events of a slot (src/pyrewire/_core/callbacks.py) when threads step a session.
use pyre_wire.Prelude.{
  ℕ, ◌≡◌, refl, sym, ap, ◌∙◌, none, some, List, [], ◌∷◌, ◌++◌, append_assoc, append-nil, nat_eq,
  inl, inr,
}
use pyre_wire.Callbacks.{Event}
use pyre_wire.Session.Threads.{
  here, next, start, turn, Phase, outside, inside, returned, copied, Threads, idle, move, Step,
  enter, report, leave, refuse, copy, clear, Reaches, Alone, Serial, at-cases, same-cases,
}

-- A thread that has made its copy has all of the queue.
record IsComplete (s : Threads) : Type 0 where
  conserved : s.results ++ s.queue ≡ s.recorded
  copies : (u : ℕ) (es : List Event) → s.phase u ≡ copied es → es ≡ s.queue

copied-injective : {xs ys : List Event} → copied xs ≡ copied ys → xs ≡ ys
copied-injective e = cc e

-- What the thread alone in a call does to the copies.
copies-move :
    (s : Threads) (t : ℕ) (x : Phase)
    → Alone t s
    → (u : ℕ) (es : List Event) → move s t x u ≡ copied es
    → x ≡ copied es
copies-move s t x alone u es e = elim (at-cases s.phase t x u) [
  | inl (_, now) ↦ sym now ∙ e
  | inr (other, kept) ↦ absurd (cc (alone u other, kept, e))
]

Step-IsComplete : {t : ℕ} {q r : Threads} → Step t q r → Alone t q → IsComplete q → IsComplete r
Step-IsComplete {t} (enter s out free) alone c = record {
  conserved = c.conserved;
  copies = λ u es e. absurd (cc (copies-move s t inside alone u es e));
}
Step-IsComplete {t} (report s e i) alone c = record {
  conserved = sym (append_assoc s.results s.queue (e ∷ [])) ∙ ap (λ x. x ++ e ∷ []) c.conserved;
  copies = λ u es h. elim (same-cases t u) [
    | inl same ↦ absurd (cc (same, i, h))
    | inr other ↦ absurd (cc (alone u other, h))
  ];
}
Step-IsComplete {t} (leave s i) alone c = record {
  conserved = c.conserved;
  copies = λ u es e. absurd (cc (copies-move s t returned alone u es e));
}
Step-IsComplete {t} (refuse s r) alone c = record {
  conserved = c.conserved;
  copies = λ u es e. absurd (cc (copies-move s t outside alone u es e));
}
Step-IsComplete {t} (copy s r) alone c = record {
  conserved = c.conserved;
  copies = λ u es e. sym (copied-injective (copies-move s t (copied s.queue) alone u es e));
}
Step-IsComplete {t} (clear s es h) alone c = record {
  conserved =
      append-nil (s.results ++ es) ∙ ap (λ x. s.results ++ x) (c.copies t es h) ∙ c.conserved;
  copies = λ u xs e. absurd (cc (copies-move s t outside alone u xs e));
}

Serial-IsComplete : {s : Threads} → Serial s → IsComplete s
Serial-IsComplete start = record { conserved = refl; copies = λ u es e. absurd (cc e) }
Serial-IsComplete (turn t r alone step) = Step-IsComplete step alone (Serial-IsComplete r)

-- As long as no call of `step` begins before the others have ended, what the calls have returned and
-- what is in the queue are the events that the trampoline has recorded, each once and in their order.
pub Serial-results : {s : Threads} → Serial s → s.results ++ s.queue ≡ s.recorded
Serial-results r = (Serial-IsComplete r).conserved

-- The lock does not keep the calls from overlapping past the engine: whatever two events the
-- trampoline records for two threads, there is a run in which both calls have returned, the second
-- event is in no result and it is in the queue no more. The second thread's event is queued between
-- `list(self._state.queue)` and `self._state.queue.clear()` of the first.
pub step-may_lose :
    (d e : Event)
    → (s : Threads) × Reaches s
      × (s.phase 0 ≡ outside)
      × (s.phase 1 ≡ outside)
      × (s.recorded ≡ d ∷ e ∷ [])
      × (s.results ≡ d ∷ [])
      × (s.queue ≡ [])
step-may_lose d e =
    let s1 = record idle { phase = move idle 0 inside; lock = some 0 } in
    let s2 = record s1 { queue = d ∷ []; recorded = d ∷ [] } in
    let s3 = record s2 { phase = move s2 0 returned; lock = none } in
    let s4 = record s3 { phase = move s3 0 (copied (d ∷ [])) } in
    let s5 = record s4 { phase = move s4 1 inside; lock = some 1 } in
    let s6 = record s5 { queue = d ∷ e ∷ []; recorded = d ∷ e ∷ [] } in
    let s7 = record s6 { phase = move s6 0 outside; queue = []; results = d ∷ [] } in
    let s8 = record s7 { phase = move s7 1 returned; lock = none } in
    let s9 = record s8 { phase = move s8 1 (copied []) } in
    let r2 : Reaches s2 = next 0 (next 0 here (enter idle refl refl)) (report s1 d refl) in
    let r4 : Reaches s4 = next 0 (next 0 r2 (leave s2 refl)) (copy s3 refl) in
    let r6 : Reaches s6 = next 1 (next 1 r4 (enter s4 refl refl)) (report s5 e refl) in
    let r8 : Reaches s8 = next 1 (next 0 r6 (clear s6 (d ∷ []) refl)) (leave s7 refl) in
    (
      record s9 { phase = move s9 1 outside; queue = []; results = d ∷ [] },
      next 1 (next 1 r8 (copy s8 refl)) (clear s9 [] refl),
      refl,
      refl,
      refl,
      refl,
      refl,
    )
