-- ===== src/Ffi/Loader.antt =====
-- src/pyrewire/_ffi/_loader.py: the search for the shared library, and the test of its version.
pub mod Search
pub mod Version
use pyre_wire.Prelude.{
  ℕ, zero, suc, String, Bool, true, false, ◌||◌, ◌&&◌, Option, none, some, List, [], ◌∷◌, ◌++◌,
  ◌==◌, string_eq, if◌then◌else◌,
}
use pyre_wire.Prelude.Int.{ℤ, pos, ltb_ℤ, int_eq}
use pyre_wire.Python.Result.{Result, ok, err}
use pyre_wire.Ffi.Types.{CString}

-- `_soname()`, by `sys.platform`
unfoldable pub soname : String → String
soname platform =
    if platform == "darwin"
    then "libwirelog.1.dylib"
    else if platform == "win32"
    then "wirelog-1.dll"
    else "libwirelog.so.1"

-- What the process has: `sys.platform`, `$WIRELOG_LIB` with its blanks stripped, the package's directory
-- `_lib`, the code and the stripped output of `pkg-config` (`none` where running it raises), and what
-- `find_library` finds.
pub record Surroundings : Type 0 where
  pub platform : String
  pub override : String
  pub package_lib : String
  pub pkg_config : Option (ℤ × String)
  pub found : Option String
  -- `str(Path(dir) / name)`
  pub join : String → String → String

-- The library in a directory.
unfoldable pub library_in : Surroundings → String → String
library_in p dir = p.join dir (soname p.platform)

unfoldable pub pkg_config_paths : (String → String) → Option (ℤ × String) → List String
pkg_config_paths in_directory none = []
pkg_config_paths in_directory (some (rc, dir)) =
    if rc == pos 0 then (if dir == "" then [] else in_directory dir ∷ []) else []

unfoldable pub found_paths : Option String → List String
found_paths none = []
found_paths (some path) = if path == "" then [] else path ∷ []

-- `_candidate_paths()`
unfoldable pub candidate_paths : Surroundings → List String
candidate_paths p =
    if p.override == ""
    then library_in p p.package_lib ∷ pkg_config_paths (library_in p) p.pkg_config
      ++ found_paths p.found
    else p.override ∷ []

-- A candidate that was passed over: it does not load, or it has no sentinel symbol.
pub data Attempt : Type 0 where
  not_loaded no_sentinel : String → Attempt

-- Loading a library, `none` where that raises `OSError`, and whether it has the sentinel symbol.
pub record Linker (H : Type 0) : Type 0 where
  pub open_library : String → Option H
  pub has_sentinel : H → Bool

-- The library, or the attempts of which the `OSError` tells.
pub data Loaded (H : Type 0) : Type 0 where
  loaded : H → Loaded H
  missing : List Attempt → Loaded H

-- What one candidate is.
pub data Candidate (H : Type 0) : Type 0 where
  usable : H → Candidate H
  passed : Attempt → Candidate H

abbrev pub continue_with : {H : Type 0} → Candidate H → Loaded H → Loaded H
continue_with (usable h) rest = loaded h
continue_with (passed a) (loaded h) = loaded h
continue_with (passed a) (missing tried) = missing (a ∷ tried)

module _ {H : Type 0} (linker : Linker H) where
  unfoldable pub try_candidate : String → Candidate H
  try_candidate path = elim (linker.open_library path) [
    | none ↦ passed (not_loaded path)
    | some h ↦ if linker.has_sentinel h then usable h else passed (no_sentinel path)
  ]

  -- The loop of `load_libwirelog`.
  unfoldable pub load_first : List String → Loaded H
  load_first [] = missing []
  load_first (path ∷ paths) = continue_with (try_candidate path) (load_first paths)

  unfoldable pub load_libwirelog : Surroundings → Loaded H
  load_libwirelog p = load_first (candidate_paths p)

-- What the code uses of Python's texts: `_pep440_base`, `split(".")` and `int`.
pub record Texts : Type 0 where
  pub pep440_base : String → String
  pub split_dots : String → List String
  pub int_of_text : String → Option ℤ

-- `for part in parts[:3]`: up to the first part that is no int.
unfoldable pub leading_ints : Texts → ℕ → List String → List ℤ
leading_ints t zero parts = []
leading_ints t (suc n) [] = []
leading_ints t (suc n) (part ∷ parts) = elim (t.int_of_text part) [
  | none ↦ []
  | some k ↦ k ∷ leading_ints t n parts
]

-- `nums` filled up with zeros.
unfoldable pub padded : List ℤ → ℤ × ℤ × ℤ
padded [] = (pos 0, pos 0, pos 0)
padded (a ∷ []) = (a, pos 0, pos 0)
padded (a ∷ b ∷ []) = (a, b, pos 0)
padded (a ∷ b ∷ c ∷ rest) = (a, b, c)

-- `_parse_version(version)`
unfoldable pub parse_version : Texts → String → ℤ × ℤ × ℤ
parse_version t version = padded (leading_ints t 3 (t.split_dots (t.pep440_base version)))

-- `<` of tuples.
unfoldable pub version_lt : ℤ × ℤ × ℤ → ℤ × ℤ × ℤ → Bool
version_lt (a, b, c) (x, y, z) =
    if a == x then (if b == y then ltb_ℤ c z else ltb_ℤ b y) else ltb_ℤ a x

-- `MINIMUM_WIRELOG_VERSION`
abbrev pub minimum_version : ℤ × ℤ × ℤ
minimum_version = (pos 0, pos 52, pos 0)

pub data Verdict : Type 0 where
  accepted unverified too_old : Verdict

-- `_verify_version(handle)`, with what `wirelog_version_string` returns if there is one: a NULL, or
-- none, is a warning only.
unfoldable pub verify_version : Texts → Option (Option String) → Verdict
verify_version t none = unverified
verify_version t (some none) = unverified
verify_version t (some (some raw)) =
    if version_lt (parse_version t (t.pep440_base raw)) minimum_version then too_old else accepted
