-- ===== src/Session/Threads/Lock.antt =====
-- What the lock of a session (src/pyrewire/session.py) keeps apart.
use pyre_wire.Prelude.{ℕ, ◌≡◌, ◌≢◌, sym, ap, ◌∙◌, some, nat_eq, inl, inr}
use mathlib.Core.Option.{some-injective}
use pyre_wire.Session.Threads.{
  here, next, Phase, outside, inside, returned, copied, Threads, move, Step, enter, report, leave,
  refuse, copy, clear, Reaches, at-cases,
}

-- Only the holder of the lock is in the engine.
abbrev Held : Threads → Type 0
Held s = (u : ℕ) → s.phase u ≡ inside → s.lock ≡ some u

-- A move to a place that is not the engine.
Held-move :
    (s : Threads) (t : ℕ) (x : Phase)
    → x ≢ inside
    → Held s
    → (u : ℕ) → move s t x u ≡ inside
    → (u ≢ t) × (s.lock ≡ some u)
Held-move s t x away held u e = elim (at-cases s.phase t x u) [
  | inl (_, now) ↦ absurd (away (sym now ∙ e))
  | inr (other, kept) ↦ (other, held u (sym kept ∙ e))
]

Step-Held : {t : ℕ} {q r : Threads} → Step t q r → Held q → Held r
Step-Held {t} (enter s out free) held = λ u e. elim (at-cases s.phase t inside u) [
  | inl (same, _) ↦ ap some (sym same)
  | inr (_, kept) ↦ absurd (cc (held u (sym kept ∙ e), free))
]
Step-Held (report s e i) held = held
Step-Held {t} (leave s i) held = λ u e.
    let (other, holds) = Held-move s t returned (λ e. cc e) held u e in
    absurd (other (some-injective u t (sym holds ∙ held t i)))
Step-Held {t} (refuse s r) held = λ u e. (Held-move s t outside (λ e. cc e) held u e).1
Step-Held {t} (copy s r) held = λ u e. (Held-move s t (copied s.queue) (λ e. cc e) held u e).1
Step-Held {t} (clear s es c) held = λ u e. (Held-move s t outside (λ e. cc e) held u e).1

Reaches-Held : {s : Threads} → Reaches s → Held s
Reaches-Held here = λ u e. absurd (cc e)
Reaches-Held (next t r step) = Step-Held step (Reaches-Held r)

-- However the threads run, one that is in the engine holds the lock, and no other is in the engine.
pub Reaches-exclusive :
    {s : Threads} (t : ℕ)
    → Reaches s
    → s.phase t ≡ inside
    → (s.lock ≡ some t) × ((u : ℕ) → s.phase u ≡ inside → u ≡ t)
Reaches-exclusive t r a =
    let held = Reaches-Held r in (held t a, λ u b. some-injective u t (sym (held u b) ∙ held t a))
