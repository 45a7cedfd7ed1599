-- ===== src/EasySession/Steps/Guard.antt =====
-- The guard against the engine's own printer (src/pyrewire/session.py, src/pyrewire/helpers.py).
use pyre_wire.Prelude.{ℕ, ◌≡◌, ◌⊎◌, inl, inr, refl, true, some, nat_eq, arith}
use pyre_wire.Python.Result.{err, type_error}
use pyre_wire.Helpers.{Callable, PrintDelta, is_wirelog_print_delta}
use pyre_wire.EasySession.{EasyLib, EasySession}
use pyre_wire.EasySession.Steps.{easy_set_delta_callback, reject_printer}

is_printer :
    (t : PrintDelta) (fn : Callable) (a : ℕ)
    → t.address ≡ some a
    → (fn.object ≡ t.object) ⊎ (fn.address ≡ some (some a))
    → is_wirelog_print_delta (some t) fn ≡ true
unfolding is_wirelog_print_delta
is_printer t fn a here (inl same) = ground (arith, same)
is_printer t fn a here (inr same) = rw (here, same) (ground arith)

-- A function that is the engine's printer, or that has its address, is refused with a `TypeError`:
-- the session's mode and callback stay as they are, and the engine is not called.
pub easy_set_delta_callback-printer :
    {W : Type 0} (lib : EasyLib W) (t : PrintDelta) (fn : Callable) (a : ℕ) (s : EasySession W)
    → t.address ≡ some a
    → (fn.object ≡ t.object) ⊎ (fn.address ≡ some (some a))
    → easy_set_delta_callback lib (some t) (some fn) s ≡ (err type_error, s)
unfolding easy_set_delta_callback reject_printer
easy_set_delta_callback-printer lib t fn a s here same = rw (is_printer t fn a here same) refl
