-- ===== src/Intern/Mirror.antt =====
-- The intern cache (src/pyrewire/_core/intern.py) and the engine's intern table.
use pyre_wire.Prelude.{
  String, ◌≡◌, ◌↔◌, refl, false, Option, none, some, inl, inr, arith, Bool-cases, string_eq,
}
use pyre_wire.Prelude.Int.{ℤ, pos, ltb_ℤ, int_eq, int_beq_iff}
use text.Mathlib.TextEquality.{eq_iff}
use pyre_wire.Prelude.Dict.{lookup, lookup-insert, lookup-insert_self}
use pyre_wire.Python.Result.{Result, ok, err}
use pyre_wire.Intern.{
  InternTable, empty_table, InternFn, remember, learn, intern_cached, intern, lookup_id, found,
}

-- The engine's intern table, of which the wrapper sees only `intern_fn`: `known w v` is the id that
-- the engine has assigned to `v`. Distinct strings have distinct ids, a call that returns an id has
-- assigned it, and an id is never taken back.
pub record Interner (W : Type 0) : Type 0 where
  pub intern_fn : InternFn W
  pub known : W → String → Option ℤ
  pub distinct : (w : W) (u v : String) (n : ℤ) → known w u ≡ some n → known w v ≡ some n → u ≡ v
  pub assigns :
      (w : W) (v : String) (n : ℤ)
      → (intern_fn v w).0 ≡ ok n
      → ltb_ℤ n (pos 0) ≡ false
      → known (intern_fn v w).1 v ≡ some n
  pub keeps :
      (w : W) (u v : String) (n : ℤ) → known w u ≡ some n → known (intern_fn v w).1 u ≡ some n

module _ {W : Type 0} (engine : Interner W) where
  -- The two halves of the table say the same, and nothing that the engine does not say.
  pub record Mirrors (t : InternTable) (w : W) : Type 0 where
    pub inverse :
        (v : String) (n : ℤ) → (lookup v t.forward ≡ some n) ↔ (lookup n t.reverse ≡ some v)
    pub true_ids : (v : String) (n : ℤ) → lookup v t.forward ≡ some n → engine.known w v ≡ some n

  pub Mirrors-empty : (w : W) → Mirrors empty_table w
  unfolding lookup
  Mirrors-empty w = record {
    inverse = λ v n. ((λ h. absurd (cc)), (λ h. absurd (cc)));
    true_ids = λ v n h. absurd (cc);
  }

  -- An id that the engine has given to the string may be remembered.
  pub remember-Mirrors :
      (t : InternTable) (w : W) (n : ℤ) (v : String)
      → Mirrors t w
      → engine.known w v ≡ some n
      → Mirrors (remember n v t) w
  unfolding remember
  remember-Mirrors t w n v m known = record {
    inverse = λ u k. (
      (λ h. ground (
        arith,
        lookup-insert v u n t.forward,
        lookup-insert n k v t.reverse,
        (m.inverse u k).0,
        m.true_ids u k,
        engine.distinct w u v k,
        eq_iff v u,
        int_beq_iff n k,
      )),
      (λ h. ground (
        arith,
        lookup-insert v u n t.forward,
        lookup-insert n k v t.reverse,
        (m.inverse u k).1,
        m.true_ids u k,
        eq_iff v u,
        int_beq_iff n k,
      )),
    );
    true_ids = λ u k h. ground (arith, lookup-insert v u n t.forward, m.true_ids u k, eq_iff v u);
  }

  -- A later state of the engine, in which every id still holds.
  Mirrors-later :
      (t : InternTable) (w w' : W)
      → ((u : String) (n : ℤ) → engine.known w u ≡ some n → engine.known w' u ≡ some n)
      → Mirrors t w
      → Mirrors t w'
  Mirrors-later t w w' keeps m = record {
    inverse = m.inverse;
    true_ids = λ u n h. keeps u n (m.true_ids u n h);
  }

  learn-Mirrors :
      (t : InternTable) (w : W) (v : String) (r : Result ℤ)
      → Mirrors t w
      → ((n : ℤ) → r ≡ ok n → ltb_ℤ n (pos 0) ≡ false → engine.known w v ≡ some n)
      → Mirrors (learn v t r w).1 (learn v t r w).2
  unfolding learn
  learn-Mirrors t w v (err e) m assigned = m
  learn-Mirrors t w v (ok n) m assigned = elim (Bool-cases (ltb_ℤ n (pos 0))) [
    | inl failed ↦ rw failed m
    | inr valid ↦ rw valid (remember-Mirrors t w n v m (assigned n refl valid))
  ]

  intern_cached-Mirrors :
      (t : InternTable) (w : W) (v : String) (o : Option ℤ)
      → Mirrors t w
      → Mirrors
          (intern_cached engine.intern_fn v t w o).1
          (intern_cached engine.intern_fn v t w o).2
  unfolding intern_cached
  intern_cached-Mirrors t w v (some n) m = m
  intern_cached-Mirrors t w v none m =
      let w' = (engine.intern_fn v w).1 in
      learn-Mirrors t w' v (engine.intern_fn v w).0
        (Mirrors-later t w w' (λ u n. engine.keeps w u v n) m) (λ n. engine.assigns w v n)

  -- `intern` keeps the mirror, whether it returns or raises.
  pub intern-Mirrors :
      (t : InternTable) (w : W) (v : String)
      → Mirrors t w
      → let (r, t', w') = intern engine.intern_fn v t w in Mirrors t' w'
  unfolding intern
  intern-Mirrors t w v m = intern_cached-Mirrors t w v (lookup v t.forward) m

  learn-ok :
      (t : InternTable) (w : W) (v : String) (r : Result ℤ) {n : ℤ}
      → (learn v t r w).0 ≡ ok n
      → (learn v t r w).1 ≡ remember n v t
  unfolding learn
  learn-ok t w v (err e) h = absurd (cc)
  learn-ok t w v (ok k) h = ground arith

  intern_cached-ok :
      (t : InternTable) (w : W) (v : String) (o : Option ℤ) {n : ℤ}
      → lookup v t.forward ≡ o
      → (intern_cached engine.intern_fn v t w o).0 ≡ ok n
      → lookup v (intern_cached engine.intern_fn v t w o).1.forward ≡ some n
  unfolding intern_cached remember
  intern_cached-ok t w v (some k) cached h = ground arith
  intern_cached-ok t w v none cached h =
      rw (learn-ok t (engine.intern_fn v w).1 v (engine.intern_fn v w).0 h)
        (lookup-insert_self v _ t.forward)

  -- An id that `intern` returns is cached.
  pub intern-forward :
      (t : InternTable) (w : W) (v : String) {n : ℤ}
      → (intern engine.intern_fn v t w).0 ≡ ok n
      → lookup v (intern engine.intern_fn v t w).1.forward ≡ some n
  unfolding intern
  intern-forward t w v h = intern_cached-ok t w v (lookup v t.forward) refl h

  -- With an engine that gives a string one id that stays and no two strings the same, and a table whose
  -- entries are the engine's, the same in both directions: after `intern` has returned an id, `lookup`
  -- of the id gives the string back, and to intern the string again returns the same id with no call of
  -- the engine and no change of the table.
  pub intern-lookup_id :
      (t : InternTable) (w : W) (v : String) {n : ℤ}
      → Mirrors t w
      → (intern engine.intern_fn v t w).0 ≡ ok n
      → let (r, t', w') = intern engine.intern_fn v t w in
        (lookup_id n t' ≡ ok v) × (intern engine.intern_fn v t' w' ≡ (ok n, t', w'))
  unfolding intern lookup_id found intern_cached
  intern-lookup_id t w v {n} m h =
      let cached = intern_cached-ok t w v (lookup v t.forward) refl h in
      let t' = (intern engine.intern_fn v t w).1 in
      let w' = (intern engine.intern_fn v t w).2 in
      let reversed = ((intern-Mirrors t w v m).inverse v n).0 cached in (rw reversed, rw cached)

  forward-learn :
      (t : InternTable) (w : W) (u v : String) (r : Result ℤ) {n : ℤ}
      → lookup u t.forward ≡ some n
      → lookup v t.forward ≡ none
      → lookup u (learn v t r w).1.forward ≡ some n
  unfolding learn remember
  forward-learn t w u v (err e) h new = h
  forward-learn t w u v (ok k) h new = ground (arith, lookup-insert v u k t.forward, eq_iff v u)

  forward-intern_cached :
      (t : InternTable) (w : W) (u v : String) (o : Option ℤ) {n : ℤ}
      → lookup u t.forward ≡ some n
      → lookup v t.forward ≡ o
      → lookup u (intern_cached engine.intern_fn v t w o).1.forward ≡ some n
  unfolding intern_cached
  forward-intern_cached t w u v (some k) h cached = h
  forward-intern_cached t w u v none h cached =
      forward-learn t (engine.intern_fn v w).1 u v (engine.intern_fn v w).0 h cached

  -- A cached string stays cached, with its id, whatever is interned after it.
  pub forward-intern :
      (t : InternTable) (w : W) (u v : String) {n : ℤ}
      → lookup u t.forward ≡ some n
      → lookup u (intern engine.intern_fn v t w).1.forward ≡ some n
  unfolding intern
  forward-intern t w u v h = forward-intern_cached t w u v (lookup v t.forward) h refl
