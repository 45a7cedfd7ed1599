-- ===== src/Session/Modes/Frame.antt =====
-- What the operations of a session leave alone (src/pyrewire/session.py).
use pyre_wire.Prelude.{
  ℕ, String, ◌≡◌, refl, ◌∙◌, Bool, true, false, Option, none, some, List, [], ◌∷◌, ◌==◌, nat_eq,
  length, if◌then◌else◌, not,
}
use pyre_wire.Prelude.Int.{ℤ}
use pyre_wire.Python.Result.{Result, ok, err}
use pyre_wire.Python.Exec.{Exec, continue, lift, pure, ◌>>=◌, ◌>>◌}
use pyre_wire.Python.Value.{Value, Number}
use pyre_wire.Ffi.Types.{TypedRow}
use pyre_wire.Program.{Program}
use pyre_wire.Intern.{InternTable}
use pyre_wire.Callbacks.{Kind, UserFn, CallbackHandle, Invocation}
use pyre_wire.Session.Object.{Session, SessionLib, Mode, checked}
use pyre_wire.Session.Rows.{Flat}
use pyre_wire.Session.Updates.{
  FlatFn, TypedFn, send, flat_iud, array_iud, send_array, as_contiguous, NumPy, NdArray, send_typed,
  column_types, typed_iud,
}
use pyre_wire.Session.Deltas.{
  install, run_engine, run_step, drain_handle, release, clear_cb, clear_if, clear_delta_cb, arm,
  replace_cb, user_handle_from, user_handle, store_fn, set_callback, step_handle_from, step_handle,
  is_kind,
}
use pyre_wire.Session.Snapshot.{with_handle, snapshot_events}

-- The fields that only the constructor, `close`, `seed_intern` and `make_compound` change, and the
-- mode.
abbrev pub fixed : {W : Type 0} → Session W → Mode × ℕ × Bool × Program × InternTable × List ℕ
fixed s = (s.mode, s.handle, s.closed, s.program, s.intern, s.compounds)

abbrev pub Keeps : {W A : Type 0} → Exec (Session W) A → Type 0
Keeps {W = W} m = (s : Session W) → fixed (m s).1 ≡ fixed s

module _ {W A : Type 0} where
  if-fixed :
      (b : Bool) (x y : Result A × Session W) (s : Session W)
      → fixed x.1 ≡ fixed s
      → fixed y.1 ≡ fixed s
      → fixed (if b then x else y).1 ≡ fixed s
  if-fixed true x y s kx ky = kx
  if-fixed false x y s kx ky = ky

  if-Keeps : (b : Bool) (m n : Exec (Session W) A) → Keeps m → Keeps n → Keeps (if b then m else n)
  if-Keeps true m n km kn = km
  if-Keeps false m n km kn = kn

module _ {W A B : Type 0} where
  pub continue-Keeps :
      (r : Result A) (f : A → Exec (Session W) B) (s : Session W)
      → ((a : A) → Keeps (f a))
      → fixed (continue r f s).1 ≡ fixed s
  continue-Keeps (ok a) f s k = k a s
  continue-Keeps (err e) f s k = refl

  pub >>=-Keeps :
      (m : Exec (Session W) A) (f : A → Exec (Session W) B)
      → Keeps m
      → ((a : A) → Keeps (f a))
      → Keeps (m >>= f)
  >>=-Keeps m f km kf s = continue-Keeps (m s).0 f (m s).1 kf ∙ km s

module _ {W : Type 0} where
  checked-Keeps : (f : W → ℤ × W) → Keeps (checked f)
  unfolding checked
  checked-Keeps f s = refl

  send-Keeps : (fn : FlatFn W) (rel : String) (f : Flat) → Keeps (send fn rel f)
  unfolding send
  send-Keeps fn rel f s = if-fixed (f.nrows == 0) _ _ s refl (checked-Keeps _ s)

  pub flat_iud-Keeps :
      (fn : FlatFn W) (rel : String) (rows : List (List Number)) → Keeps (flat_iud fn rel rows)
  unfolding flat_iud
  flat_iud-Keeps fn rel rows = >>=-Keeps (lift _) (send fn rel) (λ s. refl) (send-Keeps fn rel)

  send_array-Keeps : (fn : FlatFn W) (rel : String) (x : NdArray) → Keeps (send_array fn rel x)
  unfolding send_array
  send_array-Keeps fn rel x s = if-fixed (x.shape.0 == 0) _ _ s refl (checked-Keeps _ s)

  pub array_iud-Keeps :
      (fn : FlatFn W) (rel : String) (np : NumPy) (x : NdArray) → Keeps (array_iud fn rel np x)
  unfolding array_iud
  array_iud-Keeps fn rel np x =
      if-Keeps (not (x.ndim == 2)) _ _ (λ s. refl)
        (>>=-Keeps (lift _) _ (λ s. refl) (λ y. send_array-Keeps fn rel (as_contiguous np y)))

  send_typed-Keeps :
      (fn : TypedFn W) (rel : String) (rows : List TypedRow) → Keeps (send_typed fn rel rows)
  unfolding send_typed
  send_typed-Keeps fn rel rows s = if-fixed (length rows == 0) _ _ s refl refl

  run_engine-Keeps : (f : W → (ℤ × List Invocation) × W) → Keeps (run_engine f)
  unfolding run_engine
  run_engine-Keeps f s = refl

  drain_handle-Keeps : (h : CallbackHandle) → Keeps {W = W} (drain_handle h)
  unfolding drain_handle
  drain_handle-Keeps h s = refl

  pub ran-Keeps :
      (f : W → (ℤ × List Invocation) × W) (h : CallbackHandle)
      → Keeps (run_engine f >> drain_handle h)
  ran-Keeps f h =
      >>=-Keeps (run_engine f) (λ _. drain_handle h) (run_engine-Keeps f)
        (λ _. drain_handle-Keeps h)

  install-Keeps : (k : Kind) → Keeps {W = W} (install k)
  unfolding install
  install-Keeps k s = refl

  pub snapshot_events-Keeps :
      (k : Kind) (fn : ℕ → ℕ → W → (ℤ × List Invocation) × W) → Keeps (snapshot_events k fn)
  unfolding snapshot_events with_handle
  snapshot_events-Keeps k fn s = ran-Keeps _ _ (record s { registry = _ })

module _ {W : Type 0} (lib : SessionLib W) where
  pub typed_iud-Keeps :
      (fn : TypedFn W) (rel : String) (rows : List (List Value)) → Keeps (typed_iud lib fn rel rows)
  unfolding typed_iud column_types
  typed_iud-Keeps fn rel [] = λ s. refl
  typed_iud-Keeps fn rel (r ∷ rs) =
      >>=-Keeps (column_types lib rel) _ (λ s. refl)
        (λ ts. >>=-Keeps (lift _) (send_typed fn rel) (λ s. refl) (send_typed-Keeps fn rel))

  store_fn-Keeps : (f : UserFn) (h : CallbackHandle) → Keeps (store_fn lib f h)
  unfolding store_fn
  store_fn-Keeps f h s = refl

  clear_if-Keeps : (c : Option CallbackHandle) → Keeps (clear_if lib c)
  unfolding clear_if clear_cb release checked
  clear_if-Keeps none s = refl
  clear_if-Keeps (some h) s = refl

  clear_delta_cb-Keeps : Keeps (clear_delta_cb lib)
  unfolding clear_delta_cb
  clear_delta_cb-Keeps s = clear_if-Keeps s.delta_cb s

  arm-Keeps : (h : CallbackHandle) → Keeps (arm lib h)
  unfolding arm
  arm-Keeps h s = checked-Keeps _ s

  replace_cb-Keeps : (k : Kind) → Keeps (replace_cb lib k)
  unfolding replace_cb
  replace_cb-Keeps k =
      >>=-Keeps (clear_delta_cb lib) (λ _. install k) clear_delta_cb-Keeps (λ _. install-Keeps k)

  user_handle-Keeps : (k : Kind) (c : Option CallbackHandle) → Keeps (user_handle_from lib k c)
  unfolding user_handle_from
  user_handle-Keeps k none = replace_cb-Keeps k
  user_handle-Keeps k (some h) =
      if-Keeps (is_kind h.kind k) _ (replace_cb lib k) (λ s. refl) (replace_cb-Keeps k)

  pub set_callback-Keeps : (k : Kind) (f : Option UserFn) → Keeps (set_callback lib k f)
  unfolding set_callback user_handle
  set_callback-Keeps k none = clear_delta_cb-Keeps
  set_callback-Keeps k (some f) =
      >>=-Keeps (user_handle lib k) _ (λ s. user_handle-Keeps k s.delta_cb s)
        (λ h. >>=-Keeps (store_fn lib f h) _ (store_fn-Keeps f h) (λ _. arm-Keeps h))

  armed-Keeps : (k : Kind) → Keeps (do h ← replace_cb lib k; arm lib h; pure h)
  armed-Keeps k =
      >>=-Keeps (replace_cb lib k) _ (replace_cb-Keeps k)
        (λ h. >>=-Keeps (arm lib h) _ (arm-Keeps h) (λ _ s. refl))

  step_handle_from-Keeps : (k : Kind) (c : Option CallbackHandle) → Keeps (step_handle_from lib k c)
  unfolding step_handle_from
  step_handle_from-Keeps k none = armed-Keeps k
  step_handle_from-Keeps k (some h) =
      if-Keeps (is_kind h.kind k) _ (do h' ← replace_cb lib k; arm lib h'; pure h') (λ s. refl)
        (armed-Keeps k)

  pub step_handle-Keeps : (k : Kind) → Keeps (step_handle lib k)
  unfolding step_handle
  step_handle-Keeps k s = step_handle_from-Keeps k s.delta_cb s

  pub run_step-Keeps : (h : CallbackHandle) → Keeps (run_step lib >> drain_handle h)
  unfolding run_step
  run_step-Keeps h s = ran-Keeps (lib.step s.handle) h s
