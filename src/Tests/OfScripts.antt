-- ===== src/Tests/OfScripts.antt =====
-- The gate of the wheels (scripts/ci/check_dynamic_link.py) on two wheels.
use pyre_wire.Prelude.{◌≡◌, ◌≢◌, ◌↔◌, true, [], ◌∷◌, ◌==◌, string_eq, if◌then◌else◌}
use pyre_wire.Scripts.Wheels.{Wheel, Expand, main}
use pyre_wire.Scripts.Dynamic.{All, IsDynamic}
use pyre_wire.Scripts.Gate.{wheels, main_iff}

abbrev linux_wheel : Wheel
linux_wheel = record {
  exists = true;
  name = "pyrewire-1.1.3-cp312-manylinux_2_28_x86_64.whl";
  shared_objects = ("libwirelog.so.1", "ELF 64-bit LSB shared object, x86-64") ∷ [];
  dylibs = [];
  dlls = [];
}

-- It lacks one of the three.
abbrev windows_wheel : Wheel
windows_wheel = record {
  exists = true;
  name = "pyrewire-1.1.3-cp312-win_amd64.whl";
  shared_objects = [];
  dylibs = [];
  dlls = "wirelog-1.dll" ∷ "nanoarrow.dll" ∷ [];
}

abbrev dist : Expand
dist pattern =
    if pattern == "dist/*.whl" then linux_wheel ∷ windows_wheel ∷ [] else linux_wheel ∷ []

main_iff_example : (main "Linux" dist ("linux.whl" ∷ "dist/*.whl" ∷ []) ≡ 0) ↔ (
    (wheels dist ("linux.whl" ∷ "dist/*.whl" ∷ []) ≢ [])
    × All (IsDynamic "Linux") (wheels dist ("linux.whl" ∷ "dist/*.whl" ∷ [])))
main_iff_example = main_iff "Linux" dist ("linux.whl" ∷ "dist/*.whl" ∷ [])
