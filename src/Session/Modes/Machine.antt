-- ===== src/Session/Modes/Machine.antt =====
-- The mode machine of a session (src/pyrewire/session.py), over sequences of its operations.
use pyre_wire.Prelude.{◌≡◌, ◌≢◌, refl, ap, ◌∙◌, sym, true, some}
use pyre_wire.Python.Result.{err, wirelog, mode_error}
use pyre_wire.Python.Exec.{Exec, continue, ◌>>=◌, ◌>>◌}
use pyre_wire.Session.Object.{Session, SessionLib, Mode, require_mode, require_from}
use pyre_wire.Session.Updates.{
  require_typed_row_api, insert, remove, insert_array, remove_array, insert_typed, remove_typed,
}
use pyre_wire.Session.Deltas.{
  set_delta_callback, set_typed_delta_callback, step_events, step, step_typed, step_handle,
  run_step, drain_handle,
}
use pyre_wire.Session.Snapshot.{snapshot, snapshot_typed, snapshot_arrays}
use pyre_wire.Session.Modes.{Call, run, mode_of, Reaches, drop_value, discard}
use pyre_wire.Session.Modes.Frame.{
  fixed, Keeps, >>=-Keeps, continue-Keeps, flat_iud-Keeps, array_iud-Keeps, typed_iud-Keeps,
  set_callback-Keeps, step_handle-Keeps, run_step-Keeps, snapshot_events-Keeps,
}

-- The mode after a call that needs one.
abbrev pub settle : Mode → Mode → Mode
settle Mode.unset want = want
settle Mode.incremental want = Mode.incremental
settle Mode.query want = Mode.query

-- A method that needs the mode: it settles the mode and changes none of the other fixed fields, and
-- in a session of another mode it raises and changes nothing.
pub record IsGuarded {W A : Type 0} (want : Mode) (m : Exec (Session W) A) : Type 0 where
  pub keeps : (s : Session W) → fixed (m s).1 ≡ fixed (record s { mode = settle s.mode want })
  pub rejects :
      (s : Session W) → s.mode ≢ Mode.unset → s.mode ≢ want → m s ≡ (err (wirelog mode_error), s)

rejected :
    {W : Type 0} (want m : Mode) (s : Session W)
    → m ≢ Mode.unset
    → m ≢ want
    → require_from m want s ≡ (err (wirelog mode_error), s)
unfolding require_from
rejected want Mode.unset s set other = absurd (set refl)
rejected Mode.incremental Mode.incremental s set other = absurd (other refl)
rejected Mode.query Mode.incremental s set other = refl
rejected Mode.unset Mode.incremental s set other = refl
rejected Mode.query Mode.query s set other = absurd (other refl)
rejected Mode.incremental Mode.query s set other = refl
rejected Mode.unset Mode.query s set other = refl

module _ {W A : Type 0} where
  settled :
      (want m : Mode) (body : Unit {0} → Exec (Session W) A) (s : Session W)
      → s.mode ≡ m
      → ((u : Unit {0}) → Keeps (body u))
      → fixed (continue (require_from m want s).0 body (require_from m want s).1).1
        ≡ fixed (record s { mode = settle m want })
  unfolding require_from
  settled want Mode.unset body s e k = k tt (record s { mode = want })
  settled Mode.incremental Mode.incremental body s e k =
      k tt s ∙ ap (λ m. fixed (record s { mode = m })) e
  settled Mode.query Mode.incremental body s e k = ap (λ m. fixed (record s { mode = m })) e
  settled Mode.unset Mode.incremental body s e k = ap (λ m. fixed (record s { mode = m })) e
  settled Mode.query Mode.query body s e k = k tt s ∙ ap (λ m. fixed (record s { mode = m })) e
  settled Mode.incremental Mode.query body s e k = ap (λ m. fixed (record s { mode = m })) e
  settled Mode.unset Mode.query body s e k = ap (λ m. fixed (record s { mode = m })) e

  require-IsGuarded :
      (want : Mode) (body : Unit {0} → Exec (Session W) A)
      → ((u : Unit {0}) → Keeps (body u))
      → IsGuarded want (require_mode want >>= body)
  unfolding require_mode
  require-IsGuarded want body k = record {
    keeps = λ s. settled want s.mode body s refl k;
    rejects = λ s set other. ap (λ x. continue x.0 body x.1) (rejected want s.mode s set other);
  }

  typed-IsGuarded :
      (lib : SessionLib W) (want : Mode) (m : Exec (Session W) A)
      → lib.typed_rows ≡ true
      → IsGuarded want m
      → IsGuarded want (require_typed_row_api lib >> m)
  unfolding require_typed_row_api
  typed-IsGuarded lib want m e g = record {
    keeps = λ s. rw e (g.keeps s);
    rejects = λ s set other. rw e (g.rejects s set other);
  }

  drop-IsGuarded :
      (want : Mode) (m : Exec (Session W) A) → IsGuarded want m → IsGuarded want (drop_value m)
  drop-IsGuarded want m g = record {
    keeps = g.keeps;
    rejects = λ s set other. ap (λ x. (discard x.0, x.1)) (g.rejects s set other);
  }

bind-IsGuarded :
    {W A B : Type 0} (want : Mode) (m : Exec (Session W) A) (f : A → Exec (Session W) B)
    → IsGuarded want m
    → ((a : A) → Keeps (f a))
    → IsGuarded want (m >>= f)
bind-IsGuarded want m f g k = record {
  keeps = λ s. continue-Keeps (m s).0 f (m s).1 k ∙ g.keeps s;
  rejects = λ s set other. ap (λ x. continue x.0 f x.1) (g.rejects s set other);
}

module _ {W : Type 0} (lib : SessionLib W) where
  step_events-IsGuarded : (k : _) → IsGuarded Mode.incremental (step_events lib k)
  unfolding step_events
  step_events-IsGuarded k = require-IsGuarded Mode.incremental _ (λ _.
      >>=-Keeps (step_handle lib k) (λ h. run_step lib >> drain_handle h) (step_handle-Keeps lib k)
        (λ h. run_step-Keeps lib h))

  snapshot-IsGuarded : IsGuarded Mode.query (snapshot lib)
  unfolding snapshot
  snapshot-IsGuarded =
      require-IsGuarded Mode.query _
        (λ _. >>=-Keeps _ _ (snapshot_events-Keeps _ lib.snapshot) (λ es s. refl))

  run-IsGuarded : lib.typed_rows ≡ true → (c : Call) → IsGuarded (mode_of c) (run lib c)
  unfolding insert remove insert_array remove_array insert_typed remove_typed set_delta_callback
      set_typed_delta_callback step step_typed snapshot_typed snapshot_arrays
  run-IsGuarded api (Call.insert_call rel rows) =
      require-IsGuarded Mode.incremental _ (λ _. flat_iud-Keeps lib.insert rel rows)
  run-IsGuarded api (Call.remove_call rel rows) =
      require-IsGuarded Mode.incremental _ (λ _. flat_iud-Keeps lib.remove rel rows)
  run-IsGuarded api (Call.insert_array_call rel np x) =
      require-IsGuarded Mode.incremental _ (λ _. array_iud-Keeps lib.insert rel np x)
  run-IsGuarded api (Call.remove_array_call rel np x) =
      require-IsGuarded Mode.incremental _ (λ _. array_iud-Keeps lib.remove rel np x)
  run-IsGuarded api (Call.insert_typed_call rel rows) =
      typed-IsGuarded lib Mode.incremental _ api
        (require-IsGuarded Mode.incremental _ (λ _. typed_iud-Keeps lib lib.insert_typed rel rows))
  run-IsGuarded api (Call.remove_typed_call rel rows) =
      typed-IsGuarded lib Mode.incremental _ api
        (require-IsGuarded Mode.incremental _ (λ _. typed_iud-Keeps lib lib.remove_typed rel rows))
  run-IsGuarded api (Call.set_delta_call f) =
      require-IsGuarded Mode.incremental _ (λ _. set_callback-Keeps lib _ f)
  run-IsGuarded api (Call.set_typed_delta_call f) =
      typed-IsGuarded lib Mode.incremental _ api
        (require-IsGuarded Mode.incremental _ (λ _. set_callback-Keeps lib _ f))
  run-IsGuarded api Call.step_call =
      drop-IsGuarded Mode.incremental (step lib)
        (bind-IsGuarded Mode.incremental _ _ (step_events-IsGuarded _) (λ es s. refl))
  run-IsGuarded api Call.step_typed_call = drop-IsGuarded Mode.incremental (step_typed lib) (
      typed-IsGuarded lib Mode.incremental _ api
        (bind-IsGuarded Mode.incremental _ _ (step_events-IsGuarded _) (λ es s. refl)))
  run-IsGuarded api Call.snapshot_call = drop-IsGuarded Mode.query (snapshot lib) snapshot-IsGuarded
  run-IsGuarded api Call.snapshot_typed_call = drop-IsGuarded Mode.query (snapshot_typed lib) (
      typed-IsGuarded lib Mode.query _ api (
        require-IsGuarded Mode.query _
          (λ _. >>=-Keeps _ _ (snapshot_events-Keeps _ lib.snapshot_typed) (λ es s. refl))))
  run-IsGuarded api (Call.snapshot_arrays_call f) =
      drop-IsGuarded Mode.query (snapshot_arrays lib (some f))
        (bind-IsGuarded Mode.query (snapshot lib) _ snapshot-IsGuarded (λ es s. refl))

  -- With an engine that has the typed entry points: a call that needs the other mode than the
  -- session's raises `WirelogModeError`, and neither the session nor the engine changes.
  pub run-rejects :
      (c : Call) (s : Session W)
      → lib.typed_rows ≡ true
      → s.mode ≢ Mode.unset
      → s.mode ≢ mode_of c
      → run lib c s ≡ (err (wirelog mode_error), s)
  run-rejects c s api = (run-IsGuarded api c).rejects s

  -- With an engine that has the typed entry points: a call leaves a mode that is set, and sets an
  -- unset one to the mode that it needs, even if it raises. It changes neither the handle, the
  -- program, the intern table, the list of compounds nor whether the session is closed.
  pub run-settles :
      (c : Call) (s : Session W)
      → lib.typed_rows ≡ true
      → fixed (run lib c s).1 ≡ fixed (record s { mode = settle s.mode (mode_of c) })
  run-settles c s api = (run-IsGuarded api c).keeps s

  settle_set : (m want : Mode) → m ≢ Mode.unset → settle m want ≡ m
  settle_set Mode.unset want set = absurd (set refl)
  settle_set Mode.incremental want set = refl
  settle_set Mode.query want set = refl

  -- The mode is set once: with an engine that has the typed entry points, whatever calls follow,
  -- the session keeps its mode, and the fields that no call changes.
  pub Reaches-fixed :
      (s t : Session W)
      → lib.typed_rows ≡ true
      → s.mode ≢ Mode.unset
      → Reaches lib s t
      → fixed t ≡ fixed s
  Reaches-fixed s _ api set Reaches.here = refl
  Reaches-fixed s _ api set (Reaches.after_call {t = t} c r) =
      let e = Reaches-fixed s t api set r in
      let same : t.mode ≡ s.mode = ap (λ x. x.0) e in
      run-settles c t api
      ∙ ap (λ m. fixed (record t { mode = m }))
          (settle_set t.mode (mode_of c) (λ unset. set (sym same ∙ unset)))
      ∙ e
