-- ===== src/Session/Lifecycle/Close.antt =====
-- The end of a session (src/pyrewire/session.py).
use pyre_wire.Prelude.{
  ℕ, ◌≡◌, refl, sym, subst, All, ◌∙◌, Bool, true, false, Option, none, some, List, [], ◌∷◌, arith,
  nat_eq, if◌then◌else◌,
}
use pyre_wire.Prelude.Int.{ℤ}
use pyre_wire.Python.Result.{Exc, Result, ok, err, value_error, is_exception}
use pyre_wire.Errors.{check}
use pyre_wire.Errors.Codes.{check-raises}
use pyre_wire.Callbacks.{CallbackHandle, at}
use pyre_wire.Session.Object.{Session, SessionLib, Compound, checked}
use pyre_wire.Session.Deltas.{clear_if, clear_cb, release}
use pyre_wire.Session.Lifecycle.{
  close, after_clear, destroyed, closed_state, compound_handle, invalidate, invalidate_all,
}

-- A `Result` that is no exception of a caller.
abbrev IsCaught : Result (Unit {0}) → Type 0
IsCaught r = elim r [ ok _ ↦ Unit {0} | err e ↦ is_exception e ≡ true ]

caught_lem : (r : Result (Unit {0})) → ((e : Exc) → r ≡ err e → is_exception e ≡ true) → IsCaught r
caught_lem (ok _) h = tt
caught_lem (err e) h = h e refl

check-IsCaught : (rc : ℤ) → IsCaught (check rc)
check-IsCaught rc =
    caught_lem (check rc) (λ e h. let (c, is_c, _) = check-raises rc e h in rw is_c refl)

module _ {A : Type 0} where
  if_false : (b : Bool) (x y : A) → b ≡ false → (if b then x else y) ≡ y
  if_false b x y e = rw e refl

  if_true : (b : Bool) (x y : A) → b ≡ true → (if b then x else y) ≡ x
  if_true b x y e = rw e refl

  same_branches : {x : A} (b : Bool) → (if b then x else x) ≡ x
  same_branches true = refl
  same_branches false = refl

invalidate_all_keeps :
    (ks : List ℕ) (objects : ℕ → Compound) (k : ℕ)
    → (objects k).invalidated ≡ true
    → (invalidate_all ks objects k).invalidated ≡ true
unfolding invalidate_all invalidate
invalidate_all_keeps [] objects k e = e
invalidate_all_keeps (j ∷ ks) objects k e =
    invalidate_all_keeps ks (at objects j (invalidate (objects j))) k (ground (arith, e))

pub invalidate_all-All :
    (ks : List ℕ) (objects : ℕ → Compound)
    → All (λ k. (invalidate_all ks objects k).invalidated ≡ true) ks
unfolding invalidate_all invalidate
invalidate_all-All [] objects = tt
invalidate_all-All (k ∷ ks) objects =
    let next = at objects k (invalidate (objects k)) in
    (invalidate_all_keeps ks next k (ground arith), invalidate_all-All ks next)

module _ {W : Type 0} (lib : SessionLib W) where
  clear_if-IsCaught : (c : Option CallbackHandle) (s : Session W) → IsCaught (clear_if lib c s).0
  unfolding clear_if clear_cb checked
  clear_if-IsCaught none s = tt
  clear_if-IsCaught (some h) s = check-IsCaught _

  clear_if-delta_cb :
      (c : Option CallbackHandle) (s : Session W)
      → s.delta_cb ≡ c
      → let s' = (clear_if lib c s).1 in
        (s'.delta_cb ≡ none) × (s'.objects ≡ s.objects) × (s'.compounds ≡ s.compounds)
  unfolding clear_if clear_cb release checked
  clear_if-delta_cb none s e = (e, refl, refl)
  clear_if-delta_cb (some h) s e = (refl, refl, refl)

  after_clear_lem :
      (x : Result (Unit {0}) × Session W)
      → IsCaught x.0
      → after_clear lib x ≡ (ok tt, destroyed lib x.1)
  unfolding after_clear
  after_clear_lem (ok _, s) h = refl
  after_clear_lem (err e, s) h = rw h refl

  -- What an open session's `close` leaves before it lets go of the engine's session.
  abbrev pub cleared : Session W → Session W
  cleared s =
      (clear_if lib s.delta_cb
        (record s { compounds = []; objects = invalidate_all s.compounds s.objects })).1

  pub close-open :
      (s : Session W) → s.closed ≡ false → close lib s ≡ (ok tt, destroyed lib (cleared s))
  unfolding close
  close-open s is_open =
      if_false s.closed _ _ is_open
      ∙ after_clear_lem
          (clear_if lib s.delta_cb
            (record s { compounds = []; objects = invalidate_all s.compounds s.objects }))
          (clear_if-IsCaught s.delta_cb _)

  close-closed : (s : Session W) → s.closed ≡ true → close lib s ≡ (ok tt, s)
  unfolding close
  close-closed s is_closed = if_true s.closed _ _ is_closed

  handle-closed :
      (s : Session W) (c : Compound) → s.closed ≡ true → compound_handle s c ≡ err value_error
  unfolding compound_handle
  handle-closed s c e = rw e (same_branches c.invalidated)

  -- `close` of an open session never raises, whatever the engine answers. It leaves no engine handle,
  -- no callback and no compound; every compound that the session had is invalidated, and asking any
  -- compound of it for its handle is a `ValueError`. A second `close` does nothing.
  pub close-closes :
      (s : Session W)
      → s.closed ≡ false
      → let (r, s') = close lib s in
        (r ≡ ok tt)
        × (s'.closed ≡ true)
        × (s'.handle ≡ 0)
        × (s'.delta_cb ≡ none)
        × (s'.compounds ≡ [])
        × All (λ k. (s'.objects k).invalidated ≡ true) s.compounds
        × ((c : Compound) → compound_handle s' c ≡ err value_error)
        × (close lib s' ≡ (ok tt, s'))
  unfolding destroyed closed_state
  close-closes s is_open =
      let e = close-open s is_open in
      let (cb, objects, compounds) =
        clear_if-delta_cb s.delta_cb
          (record s { compounds = []; objects = invalidate_all s.compounds s.objects }) refl in
      let s' = destroyed lib (cleared s) in
      rw e (
        refl,
        refl,
        refl,
        cb,
        compounds,
        subst (λ o. All (λ k. (o k).invalidated ≡ true) s.compounds) (sym objects)
            (invalidate_all-All s.compounds s.objects),
        (λ c. handle-closed s' c refl),
        close-closed s' refl,
      )
