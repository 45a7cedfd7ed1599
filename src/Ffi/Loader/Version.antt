-- ===== src/Ffi/Loader/Version.antt =====
-- Which versions are refused (src/pyrewire/_ffi/_loader.py).
use pyre_wire.Prelude.{
  ℕ, ◌<◌, String, ◌≡◌, ◌↔◌, refl, Bool, true, false, some, if◌then◌else◌, arith, nat_eq,
}
use pyre_wire.Prelude.Int.{pos, int_eq}
use pyre_wire.Ffi.Loader.{
  Texts, parse_version, version_lt, minimum_version, verify_version, too_old, accepted,
}

version_lt_minimum :
    (a b c : ℕ) → (version_lt (pos a, pos b, pos c) minimum_version ≡ true) ↔ ((a ≡ 0) × (b < 52))
unfolding version_lt
version_lt_minimum a b c = ground arith

verdict_iff : (b : Bool) → ((if b then too_old else accepted) ≡ too_old) ↔ (b ≡ true)
verdict_iff true = (λ h. refl, λ h. refl)
verdict_iff false = (λ h. cc, λ h. cc)

-- A version that is reported with a major, a minor and a patch number is refused exactly if the major
-- is 0 and the minor below 52, whatever the patch is.
pub verify_version_iff :
    (t : Texts) (raw : String) (a b c : ℕ)
    → parse_version t (t.pep440_base raw) ≡ (pos a, pos b, pos c)
    → (verify_version t (some (some raw)) ≡ too_old) ↔ ((a ≡ 0) × (b < 52))
unfolding verify_version
verify_version_iff t raw a b c parsed =
    let (below, refused) = verdict_iff (version_lt (pos a, pos b, pos c) minimum_version) in
    let (old, small) = version_lt_minimum a b c in
    rw parsed (λ h. old (below h), λ h. refused (small h))
