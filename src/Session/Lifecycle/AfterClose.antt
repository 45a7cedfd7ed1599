-- ===== src/Session/Lifecycle/AfterClose.antt =====
-- A session that is used after its `close` (src/pyrewire/session.py).
use pyre_wire.Prelude.{
  ◌<◌, ◌^◌, ◌≡◌, ◌≢◌, refl, ap, ◌∙◌, false, Option, none, some, String, List, [], nat_eq,
}
use pyre_wire.Prelude.Int.{ℤ}
use pyre_wire.Python.Result.{ok}
use pyre_wire.Python.Value.{Number}
use pyre_wire.Errors.{check}
use pyre_wire.Callbacks.{CallbackHandle}
use pyre_wire.Session.Object.{Session, SessionLib, Mode, checked}
use pyre_wire.Session.Rows.{Flat, flatten}
use pyre_wire.Session.Updates.{insert}
use pyre_wire.Session.Updates.Batches.{insert-sends}
use pyre_wire.Session.Deltas.{clear_if, clear_cb, release}
use pyre_wire.Session.Lifecycle.{close, destroyed, closed_state, invalidate_all}
use pyre_wire.Session.Lifecycle.Close.{close-open}

module _ {W : Type 0} (lib : SessionLib W) where
  clear_if-mode : (c : Option CallbackHandle) (s : Session W) → (clear_if lib c s).1.mode ≡ s.mode
  unfolding clear_if clear_cb release checked
  clear_if-mode none s = refl
  clear_if-mode (some h) s = refl

  closed-handle-mode :
      (s : Session W)
      → s.closed ≡ false
      → ((close lib s).1.handle ≡ 0) × ((close lib s).1.mode ≡ s.mode)
  unfolding destroyed closed_state
  closed-handle-mode s is_open =
      let left = ap (λ x. x.1) (close-open lib s is_open) in
      (
        ap (λ x. x.handle) left,
        ap (λ x. x.mode) left
            ∙ clear_if-mode s.delta_cb
                (record s { compounds = []; objects = invalidate_all s.compounds s.objects }),
      )

  -- `insert` on a session in incremental mode that has been closed is not refused: the engine is
  -- called with a NULL session and the whole batch, and what comes of it is what `check` makes of the
  -- engine's code.
  pub insert-close :
      (relation : String) (rows : List (List Number)) (f : Flat) (s : Session W) (rc : ℤ) (w : W)
      → s.closed ≡ false
      → s.mode ≡ Mode.incremental
      → flatten rows ≡ ok f
      → f.nrows ≢ 0
      → f.nrows < 2 ^ 32
      → f.ncols < 2 ^ 32
      → lib.insert 0 relation f.cells f.nrows f.ncols (close lib s).1.world ≡ (rc, w)
      → insert lib relation rows (close lib s).1 ≡ (check rc, record (close lib s).1 { world = w })
  insert-close relation rows f s rc w is_open mode flat some_rows rows_fit cols_fit runs =
      let (handle, same_mode) = closed-handle-mode s is_open in
      let s' = (close lib s).1 in
      (insert-sends lib relation rows f s' rc w (same_mode ∙ mode) flat some_rows rows_fit cols_fit
        (ap (λ h. lib.insert h relation f.cells f.nrows f.ncols s'.world) handle ∙ runs)).0
