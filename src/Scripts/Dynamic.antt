-- ===== src/Scripts/Dynamic.antt =====
-- What a wheel has to have to pass scripts/ci/check_dynamic_link.py.
use pyre_wire.Prelude.{
  ◌≤◌, String, Bool, true, false, ◌||◌, ◌≡◌, ◌≢◌, ◌↔◌, refl, sym, subst, Option, none, some, List,
  [], ◌∷◌, length, arith, ◌==◌, nat_eq, string_eq, Bool-cases, inl, inr, if◌then◌else◌,
}
use mathlib.Core.Option.{some-injective}
use pyre_wire.Scripts.Wheels.{
  occurs, Wheel, Offence, shared_offences, linux_offences, install_offences, macos_offences,
  is_bundled, required_dlls, lacking, missing_offences, windows_offences, check_wheel,
}

pub data Platform : Type 0 where
  linux macos windows : Platform

-- The platform that a wheel's tag names.
abbrev pub tagged : String → Option Platform
tagged name =
    if occurs "linux" name || occurs "manylinux" name
    then some linux
    else if occurs "macosx" name || occurs "darwin" name
    then some macos
    else if occurs "win" name
    then some windows
    else none

abbrev pub running : String → Option Platform
running system =
    if system == "Linux"
    then some linux
    else if system == "Darwin"
    then some macos
    else if system == "Windows"
    then some windows
    else none

abbrev pub or_running : String → Option Platform → Option Platform
or_running system none = running system
or_running system (some p) = some p

abbrev pub All {ℓ κ} : {A : Type ℓ} → (A → Type κ) → List A → Type κ
All P [] = Unit
All P (x ∷ xs) = P x × All P xs

-- What a wheel of a platform has to have.
abbrev pub Passes : Platform → Wheel → Type 0
Passes linux w =
    (w.shared_objects ≢ []) × All (λ f. occurs "shared object" f.1 ≡ true) w.shared_objects
Passes macos w = (w.dylibs ≢ []) × All (λ f. 2 ≤ length f.1) w.dylibs
Passes windows w = All (λ dll. is_bundled dll w.dlls ≡ true) required_dlls

-- The wheel is there, of a known platform, and has what that platform asks for.
abbrev pub IsDynamic : String → Wheel → Type 0
IsDynamic system w =
    (w.exists ≡ true) × ((p : Platform) × (or_running system (tagged w.name) ≡ some p) × Passes p w)

shared_offences_iff :
    (fs : List (String × String))
    → (shared_offences fs ≡ []) ↔ All (λ f. occurs "shared object" f.1 ≡ true) fs
unfolding shared_offences
shared_offences_iff [] = (λ e. tt, λ a. refl)
shared_offences_iff (f ∷ fs) = elim (Bool-cases (occurs "shared object" f.1)) [
  | inl shared ↦ (
    λ e. (shared, (shared_offences_iff fs).0 (rw shared at e)),
    λ all. rw shared ((shared_offences_iff fs).1 all.1),
  )
  | inr other ↦ (λ e. absurd (cc (other, e)), λ all. absurd (cc (other, all.0)))
]

install_offences_iff :
    (fs : List (String × List String)) → (install_offences fs ≡ []) ↔ All (λ f. 2 ≤ length f.1) fs
unfolding install_offences
install_offences_iff [] = (λ e. tt, λ a. refl)
install_offences_iff (f ∷ fs) = (
  λ e. ground (arith, (install_offences_iff fs).0),
  λ all. ground (arith, (install_offences_iff fs).1),
)

missing_offences_iff :
    (xs dlls : List String)
    → (missing_offences (lacking xs dlls) ≡ []) ↔ All (λ dll. is_bundled dll dlls ≡ true) xs
unfolding missing_offences lacking
missing_offences_iff [] dlls = (λ e. tt, λ a. refl)
missing_offences_iff (x ∷ xs) dlls = elim (Bool-cases (is_bundled x dlls)) [
  | inl there ↦ (
    λ e. (there, (missing_offences_iff xs dlls).0 (rw there at e)),
    λ all. rw there ((missing_offences_iff xs dlls).1 all.1),
  )
  | inr gone ↦ (λ e. absurd (cc (gone, e)), λ all. absurd (cc (gone, all.0)))
]

-- The check of a platform.
abbrev check_on : Option Platform → Wheel → List Offence
check_on none w = Offence.unsupported ∷ []
check_on (some linux) w = linux_offences w.shared_objects
check_on (some macos) w = macos_offences w.dylibs
check_on (some windows) w = windows_offences w.dlls

check_wheel-check_on :
    (system : String) (w : Wheel)
    → check_wheel system w
      ≡ (if w.exists then check_on (or_running system (tagged w.name)) w else Offence.missing ∷ [])
unfolding check_wheel
check_wheel-check_on system w = ground arith

linux_offences_iff :
    (fs : List (String × String))
    → (linux_offences fs ≡ []) ↔ ((fs ≢ []) × All (λ f. occurs "shared object" f.1 ≡ true) fs)
unfolding linux_offences
linux_offences_iff [] = (λ e. absurd (cc e), λ h. absurd (h.0 refl))
linux_offences_iff (f ∷ fs) =
    let (to, from) = shared_offences_iff (f ∷ fs) in (λ e. (λ empty. cc empty, to e), λ h. from h.1)

macos_offences_iff :
    (fs : List (String × List String))
    → (macos_offences fs ≡ []) ↔ ((fs ≢ []) × All (λ f. 2 ≤ length f.1) fs)
unfolding macos_offences
macos_offences_iff [] = (λ e. absurd (cc e), λ h. absurd (h.0 refl))
macos_offences_iff (f ∷ fs) =
    let (to, from) = install_offences_iff (f ∷ fs) in
    (λ e. (λ empty. cc empty, to e), λ h. from h.1)

check_on_iff : (p : Platform) (w : Wheel) → (check_on (some p) w ≡ []) ↔ Passes p w
unfolding windows_offences
check_on_iff linux w = linux_offences_iff w.shared_objects
check_on_iff macos w = macos_offences_iff w.dylibs
check_on_iff windows w = missing_offences_iff required_dlls w.dlls

on_platform_iff :
    (o : Option Platform) (w : Wheel)
    → (check_on o w ≡ []) ↔ ((p : Platform) × (o ≡ some p) × Passes p w)
on_platform_iff none w = (λ e. absurd (cc e), λ (p, e, h). absurd (cc e))
on_platform_iff (some p) w = (
  λ e. (p, refl, (check_on_iff p w).0 e),
  λ (q, e, h). (check_on_iff p w).1 (rw (some-injective p q e) h),
)

present_iff :
    (b : Bool) (o : Option Platform) (w : Wheel)
    → ((if b then check_on o w else Offence.missing ∷ []) ≡ [])
      ↔ ((b ≡ true) × ((p : Platform) × (o ≡ some p) × Passes p w))
present_iff true o w = let (to, from) = on_platform_iff o w in (λ e. (refl, to e), λ h. from h.1)
present_iff false o w = (λ e. absurd (cc e), λ h. absurd (cc h.0))

pub check_wheel_iff :
    (system : String) (w : Wheel) → (check_wheel system w ≡ []) ↔ IsDynamic system w
check_wheel_iff system w =
    subst (λ x. (x ≡ []) ↔ IsDynamic system w) (sym (check_wheel-check_on system w))
      (present_iff w.exists (or_running system (tagged w.name)) w)
