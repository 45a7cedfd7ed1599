-- ===== src/Program/Lifecycle.antt =====
-- Closing a program (src/pyrewire/program.py).
use pyre_wire.Prelude.{◌≡◌, ◌≢◌, true, false, arith, nat_eq}
use pyre_wire.Program.{Program, ProgramLib, close}

module _ {W : Type 0} (lib : ProgramLib W) where
  -- An open program with a handle frees it on the first `close`, and on no later one.
  pub close-close :
      (p : Program) (w : W)
      → p.closed ≡ false
      → p.handle ≢ 0
      → let (p', w') = close lib p w in
        (w' ≡ lib.program_free p.handle w)
        × (p'.handle ≡ 0)
        × (p'.closed ≡ true)
        × (close lib p' w' ≡ (p', w'))
  unfolding close
  close-close p w fresh handle = ground arith
