-- ===== src/IoAdapter/Registry.antt =====
-- What the registry of adapters keeps alive (src/pyrewire/io_adapter.py).
use mathlib.Core.Option.{some-injective}
use pyre_wire.Prelude.{
  refl, subst, arith, String, ◌≡◌, sym, ◌∙◌, inl, inr, Bool, true, false, Option, none, some,
  Bool-cases, ◌==◌, string_eq, if◌then◌else◌,
}
use pyre_wire.Prelude.Int.{pos, int_eq}
use pyre_wire.Prelude.Dict.{lookup, contains, lookup-insert, lookup-erase}
use pyre_wire.Python.Result.{Result, ok, err}
use pyre_wire.IoAdapter.{
  Cfunc, AdapterStruct, AdapterLib, Adapters, Registration, registration, register_adapter,
  unregister_adapter, register_made, keep_if, drop_if,
}

-- An engine with what it says of its registrations: `refers w scheme` is the structure with which
-- the engine was given a scheme's adapter, if it has one. A call that fails leaves them.
pub record AdapterEngine (I W : Type 0) : Type 0 where
  pub lib : AdapterLib I W
  pub refers : W → String → Option (AdapterStruct I)
  pub registers :
      (r : AdapterStruct I) (w : W) (scheme : String)
      → refers (lib.register r w).1 scheme ≡ (
          if (lib.register r w).0 == pos 0
          then (if r.scheme == scheme then some r else refers w scheme)
          else refers w scheme)
  pub unregisters :
      (gone : String) (w : W) (scheme : String)
      → refers (lib.unregister gone w).1 scheme ≡ (
          if (lib.unregister gone w).0 == pos 0
          then (if gone == scheme then none else refers w scheme)
          else refers w scheme)

-- The registration holds the structure and all that the structure points to: the bytes, the two
-- functions, and the object that they are for.
abbrev pub Owns : {I : Type 0} → Registration I → AdapterStruct I → Type 0
Owns r x =
    (r.adapter_struct ≡ x)
    × (r.scheme_bytes ≡ x.scheme)
    × (r.description_bytes ≡ x.description)
    × (r.read_cfunc ≡ x.read)
    × (r.validate_cfunc ≡ x.validate)
    × (x.read ≡ Cfunc.read_of r.py_instance)

module _ {I W : Type 0} (engine : AdapterEngine I W) where
  -- The registry owns everything that the engine refers to.
  unfoldable pub KeptAlive : Adapters I W → Type 0
  KeptAlive a =
      (scheme : String) (x : AdapterStruct I)
      → engine.refers a.world scheme ≡ some x
      → (r : Registration I) × (lookup scheme a.registry ≡ some r) × Owns r x

  keep_if-KeptAlive :
      (b : Bool) (scheme : String) (r : Registration I) (w : W) (a : Adapters I W)
      → ((name : String)
          → engine.refers w name ≡ (
              if b
              then (if scheme == name then some r.adapter_struct else engine.refers a.world name)
              else engine.refers a.world name))
      → Owns r r.adapter_struct
      → KeptAlive a
      → KeptAlive (keep_if engine.lib b scheme r w a).1
  unfolding KeptAlive
  keep_if-KeptAlive true scheme r w a said owns kept = λ name x refers.
      elim (Bool-cases (scheme == name)) [
        | inl same ↦
            let owned : r.adapter_struct ≡ x =
              some-injective r.adapter_struct x (ground (arith, said name, same, refers)) in
            (
              r,
              lookup-insert scheme name r a.registry ∙ rw same refl,
              subst (λ y. Owns r y) owned owns,
            )
        | inr other ↦
            let (q, there, owned) = kept name x (ground (arith, said name, other, refers)) in
            (q, lookup-insert scheme name r a.registry ∙ rw other there, owned)
      ]
  keep_if-KeptAlive false scheme r w a said owns kept =
      λ name x refers. kept name x (sym (said name) ∙ refers)

  drop_if-KeptAlive :
      (b : Bool) (gone : String) (w : W) (a : Adapters I W)
      → ((name : String)
          → engine.refers w name ≡ (
              if b
              then (if gone == name then none else engine.refers a.world name)
              else engine.refers a.world name))
      → KeptAlive a
      → KeptAlive (drop_if engine.lib b gone w a).1
  unfolding KeptAlive
  drop_if-KeptAlive true gone w a said kept = λ name x refers. elim (Bool-cases (gone == name)) [
    | inl same ↦ absurd (ground (arith, said name, same, refers))
    | inr other ↦
        let (q, there, owned) = kept name x (ground (arith, said name, other, refers)) in
        (q, lookup-erase gone name a.registry ∙ rw other there, owned)
  ]
  drop_if-KeptAlive false gone w a said kept =
      λ name x refers. kept name x (sym (said name) ∙ refers)

  register_made-KeptAlive :
      (scheme description : String) (made : Result I) (a : Adapters I W)
      → KeptAlive a
      → KeptAlive (register_made engine.lib scheme description made a).1
  unfolding register_made registration
  register_made-KeptAlive scheme description (err e) a kept = kept
  register_made-KeptAlive scheme description (ok i) a kept =
      let r = registration engine.lib scheme description i in
      let (rc, w) = engine.lib.register r.adapter_struct a.world in
      keep_if-KeptAlive (rc == pos 0) scheme r w a (engine.registers r.adapter_struct a.world)
        (refl, refl, refl, refl, refl, refl) kept

  -- Whether or not it raises, `register_adapter` leaves a registry that owns everything that the engine
  -- refers to, if the registry did before: for each scheme that the engine has, the structure it was
  -- given, the bytes and the two functions that the structure points to, and the object that they are
  -- for. The engine is one that takes over the structure of a registration that it answers with 0, and
  -- otherwise keeps what it has.
  pub register_adapter-KeptAlive :
      (scheme description : String) (made : Result I) (a : Adapters I W)
      → KeptAlive a
      → KeptAlive (register_adapter engine.lib scheme description made a).1
  unfolding register_adapter
  register_adapter-KeptAlive scheme description made a kept = elim (Bool-cases (scheme == "")) [
    | inl empty ↦ rw empty kept
    | inr named ↦ rw named (register_made-KeptAlive scheme description made a kept)
  ]

  -- `unregister_adapter` forgets a registration only once the engine has, and goes on owning what the
  -- engine still refers to, whether or not it raises.
  pub unregister_adapter-KeptAlive :
      (scheme : String) (a : Adapters I W)
      → KeptAlive a
      → KeptAlive (unregister_adapter engine.lib scheme a).1
  unfolding unregister_adapter
  unregister_adapter-KeptAlive scheme a kept = elim (Bool-cases (contains scheme a.registry)) [
    | inr unknown ↦ rw unknown kept
    | inl known ↦ rw known (
        drop_if-KeptAlive ((engine.lib.unregister scheme a.world).0 == pos 0) scheme
          (engine.lib.unregister scheme a.world).1 a (engine.unregisters scheme a.world) kept)
  ]
