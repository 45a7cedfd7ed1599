-- ===== src/Scripts/Wheels.antt =====
-- scripts/ci/check_dynamic_link.py: the gate that every wheel ships libwirelog as a shared library.
use Prim.Native.Char.{code}
use pyre_wire.Prelude.{
  ℕ, ◌+◌, String, Bool, true, false, not, ◌&&◌, ◌||◌, List, [], ◌∷◌, ◌++◌, length, ltb, ◌==◌,
  nat_eq, string_eq, if◌then◌else◌,
}

-- `sub in text`
starts_with : String → String → Bool
starts_with String.[] t = true
starts_with (String.◌∷◌ c s) String.[] = false
starts_with (String.◌∷◌ c s) (String.◌∷◌ d t) = code c == code d && starts_with s t

unfoldable pub occurs : String → String → Bool
unfolding starts_with
occurs s String.[] = starts_with s String.[]
occurs s (String.◌∷◌ d t) = starts_with s (String.◌∷◌ d t) || occurs s t

-- A path that is given, and what the file there unpacks to: the name in lower case; the files
-- `libwirelog.so*` with what `file` prints of them; the files `libwirelog*.dylib` with the lines of
-- `otool -D` that are not blank; and the names of the DLLs in lower case.
pub record Wheel : Type 0 where
  pub exists : Bool
  pub name : String
  pub shared_objects : List (String × String)
  pub dylibs : List (String × List String)
  pub dlls : List String

-- The messages about one wheel.
pub data Offence : Type 0 where
  missing no_library unsupported : Offence
  not_shared no_install_name : String → Offence
  missing_dlls : List String → Offence

unfoldable pub shared_offences : List (String × String) → List Offence
shared_offences [] = []
shared_offences ((name, printed) ∷ files) =
    let rest = shared_offences files in
    if occurs "shared object" printed then rest else not_shared name ∷ rest

-- `check_linux(wheel)`, by the files that are found.
unfoldable pub linux_offences : List (String × String) → List Offence
linux_offences [] = no_library ∷ []
linux_offences (f ∷ files) = shared_offences (f ∷ files)

unfoldable pub install_offences : List (String × List String) → List Offence
install_offences [] = []
install_offences ((name, lines) ∷ files) =
    let rest = install_offences files in
    if ltb (length lines) 2 then no_install_name name ∷ rest else rest

-- `check_macos(wheel)`
unfoldable pub macos_offences : List (String × List String) → List Offence
macos_offences [] = no_library ∷ []
macos_offences (f ∷ files) = install_offences (f ∷ files)

unfoldable pub is_bundled : String → List String → Bool
is_bundled x [] = false
is_bundled x (y ∷ ys) = x == y || is_bundled x ys

-- `required`, in the order of `sorted`.
abbrev pub required_dlls : List String
required_dlls = "libxxhash.dll" ∷ "nanoarrow.dll" ∷ "wirelog-1.dll" ∷ []

unfoldable pub lacking : List String → List String → List String
lacking [] bundled = []
lacking (x ∷ xs) bundled =
    let rest = lacking xs bundled in if is_bundled x bundled then rest else x ∷ rest

unfoldable pub missing_offences : List String → List Offence
missing_offences [] = []
missing_offences (x ∷ xs) = missing_dlls (x ∷ xs) ∷ []

-- `check_windows(wheel)`
unfoldable pub windows_offences : List String → List Offence
windows_offences bundled = missing_offences (lacking required_dlls bundled)

-- `check_wheel(wheel)`, with `platform.system()`
unfoldable pub check_wheel : String → Wheel → List Offence
check_wheel system w =
    if not w.exists
    then missing ∷ []
    else if occurs "linux" w.name || occurs "manylinux" w.name
    then linux_offences w.shared_objects
    else if occurs "macosx" w.name || occurs "darwin" w.name
    then macos_offences w.dylibs
    else if occurs "win" w.name
    then windows_offences w.dlls
    else if system == "Linux"
    then linux_offences w.shared_objects
    else if system == "Darwin"
    then macos_offences w.dylibs
    else if system == "Windows"
    then windows_offences w.dlls
    else unsupported ∷ []

-- What an argument of the command line stands for: the wheel at the path, or, of a pattern, the wheels
-- that match it, in their order.
abbrev pub Expand : Type 0
Expand = String → List Wheel

unfoldable pub check_paths : String → List Wheel → List Offence × ℕ
check_paths system [] = ([], 0)
check_paths system (w ∷ ws) =
    let (errors, checked) = check_paths system ws in (check_wheel system w ++ errors, checked + 1)

unfoldable pub check_arguments : String → Expand → List String → List Offence × ℕ
check_arguments system expand [] = ([], 0)
check_arguments system expand (a ∷ argv) =
    let (errors, checked) = check_paths system (expand a) in
    let (more, others) = check_arguments system expand argv in (errors ++ more, checked + others)

unfoldable pub exit_code : List Offence × ℕ → ℕ
exit_code (e ∷ errors, checked) = 1
exit_code ([], checked) = if checked == 0 then 1 else 0

-- `main(argv)`
unfoldable pub main : String → Expand → List String → ℕ
main system expand [] = 2
main system expand (a ∷ argv) = exit_code (check_arguments system expand (a ∷ argv))
