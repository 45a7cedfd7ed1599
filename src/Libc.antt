-- ===== src/Libc.antt =====
-- src/pyrewire/_core/_libc.py: the libc of the process, which the first call that needs it loads.
pub mod Calls
use pyre_wire.Prelude.{ℕ, String, Bool, Option, none, some, List, [], ◌∷◌, ◌==◌, if◌then◌else◌}
use pyre_wire.Prelude.Int.{ℤ, pos, ltb_ℤ, int_eq}
use pyre_wire.Python.Result.{Result, ok, err, runtime_error, value_error}
use pyre_wire.Python.Exec.{Exec, pure, raise, ◌>>=◌}
use pyre_wire.Python.Words.{mask64}

-- `sys.platform == "win32"`, `find_library("c")`, `ctypes.CDLL(name)` (`none` where it raises
-- `OSError`), and a library's functions. The state `W` of the process decides what can be loaded.
pub record LibcLib (H W : Type 0) : Type 0 where
  pub windows : Bool
  pub find_c : W → Option String
  pub open_library : Option String → W → Option H
  pub malloc : H → ℕ → W → ℕ × W
  pub free : H → ℕ → W → W

-- `_HANDLE`, and the rest of the process.
pub record Process (H W : Type 0) : Type 0 where
  pub handle : Option H
  pub world : W

-- An argument of `libc_free`: `None`, an int, or a ctypes pointer by its address.
pub data Pointer : Type 0 where
  nothing : Pointer
  address : ℤ → Pointer
  pointer : ℕ → Pointer

abbrev pub or_else : {H : Type 0} → Option H → Option H → Option H
or_else none rest = rest
or_else (some h) rest = some h

module _ {H W : Type 0} (lib : LibcLib H W) where
  open lib use {windows, find_c, open_library, malloc, free}

  unfoldable pub first_of : List String → W → Option H
  first_of [] w = none
  first_of (name ∷ names) w = or_else (open_library (some name) w) (first_of names w)

  -- `find_library("c")` may find nothing: `CDLL(None)` is the interpreter itself.
  unfoldable pub candidate : W → Option H
  candidate w =
      if windows then first_of ("ucrtbase.dll" ∷ "msvcrt.dll" ∷ []) w else open_library (find_c w) w

  unfoldable pub keep_candidate : Option H → W → Result H × Process H W
  keep_candidate none w = (err runtime_error, record { handle = none; world = w })
  keep_candidate (some h) w = (ok h, record { handle = some h; world = w })

  unfoldable pub resolve_from : Option H → W → Result H × Process H W
  resolve_from (some h) w = (ok h, record { handle = some h; world = w })
  resolve_from none w = keep_candidate (candidate w) w

  -- `_resolve()`
  unfoldable pub resolve : Exec (Process H W) H
  resolve s = resolve_from s.handle s.world

  abbrev pub allocate : ℕ → H → Exec (Process H W) ℕ
  allocate n h s = let (a, w) = malloc h n s.world in (ok a, record s { world = w })

  abbrev pub release : ℕ → H → Exec (Process H W) (Unit {0})
  release a h s = (ok tt, record s { world = free h a s.world })

  -- `libc_malloc(n)`, the address or 0. `c_size_t` wraps.
  unfoldable pub libc_malloc : ℤ → Exec (Process H W) ℕ
  libc_malloc n = if ltb_ℤ n (pos 0) then raise value_error else resolve >>= allocate (mask64 n)

  unfoldable pub libc_free : Pointer → Exec (Process H W) (Unit {0})
  libc_free nothing = pure tt
  libc_free (address a) = if a == pos 0 then pure tt else resolve >>= release (mask64 a)
  libc_free (pointer a) = resolve >>= release a
