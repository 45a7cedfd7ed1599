-- ===== src/Scripts.antt =====
-- The scripts of the repository that decide something: scripts/ci/check_dynamic_link.py.
pub mod Wheels
pub mod Dynamic
pub mod Gate
