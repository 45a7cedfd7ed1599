-- ===== src/Tests/OfLibc.antt =====
-- The allocator at a concrete process (src/pyrewire/_core/_libc.py).
use pyre_wire.Prelude.{
  ℕ, ◌≡◌, refl, false, some, none, List, [], ◌∷◌, ◌==◌, nat_eq, ◌+◌, if◌then◌else◌,
}
use pyre_wire.Prelude.Int.{pos, negsuc}
use pyre_wire.Python.Result.{ok}
use pyre_wire.Libc.{
  LibcLib, Process, resolve, resolve_from, candidate, keep_candidate, nothing, address, pointer,
}
use pyre_wire.Libc.Calls.{Call, malloc_call, free_call, run_calls, direct_calls, run_calls-direct}

-- A library is found while nothing is allocated; the world counts the bytes.
abbrev counting : LibcLib ℕ ℕ
counting = record {
  windows = false;
  find_c = λ w. some "libc.so.6";
  open_library = λ name w. if w == 0 then some 7 else none;
  malloc = λ h n w. (4096 + w, w + n);
  free = λ h a w. w + h;
}

abbrev fresh : Process ℕ ℕ
fresh = record { handle = none; world = 0 }

abbrev traffic : List Call
traffic =
    malloc_call (negsuc 0)
    ∷ free_call nothing
    ∷ malloc_call (pos 16)
    ∷ free_call (address (pos 0))
    ∷ free_call (pointer 4096)
    ∷ malloc_call (pos 8)
    ∷ []

found_7 : (resolve counting fresh).0 ≡ ok 7
unfolding resolve resolve_from candidate keep_candidate
found_7 = refl

run_calls-direct_example :
    ((run_calls counting traffic fresh).0 ≡ (direct_calls counting 7 traffic 0).0)
    × ((run_calls counting traffic fresh).1.world ≡ (direct_calls counting 7 traffic 0).1)
run_calls-direct_example = run_calls-direct counting 7 traffic fresh found_7
