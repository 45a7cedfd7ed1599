-- ===== src/Tests/OfLoader.antt =====
-- The search for the shared library and the test of its version (src/pyrewire/_ffi/_loader.py).
use pyre_wire.Prelude.{ℕ, ◌<◌, ◌≡◌, ◌↔◌, refl, none, some, [], ◌∷◌, ◌==◌, string_eq, if◌then◌else◌}
use pyre_wire.Prelude.Int.{pos, int_eq}
use pyre_wire.Ffi.Loader.{Texts, parse_version, leading_ints, padded, verify_version, too_old}
use pyre_wire.Ffi.Loader.Version.{verify_version_iff}

abbrev texts : Texts
texts = record {
  pep440_base = λ s. s;
  split_dots = λ s. "0" ∷ "51" ∷ "dev" ∷ [];
  int_of_text = λ s. if s == "0" then some (pos 0) else if s == "51" then some (pos 51) else none;
}

reported : parse_version texts "0.51.dev" ≡ (pos 0, pos 51, pos 0)
unfolding parse_version leading_ints padded
reported = refl

abbrev major : ℕ
major = 0

verify_version_iff_example :
    (verify_version texts (some (some "0.51.dev")) ≡ too_old) ↔ ((major ≡ 0) × (51 < 52))
verify_version_iff_example = verify_version_iff texts "0.51.dev" 0 51 0 reported
