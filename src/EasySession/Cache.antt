-- ===== src/EasySession/Cache.antt =====
-- The schema cache of an `EasySession` (src/pyrewire/session.py), and what a row decodes to.
use pyre_wire.Prelude.{
  inl, inr, String, ◌≡◌, refl, sym, ap, ap₂, subst, ◌∙◌, Option, none, some, List, [], ◌∷◌,
  string_eq,
}
use pyre_wire.Prelude.Int.{ℤ}
use pyre_wire.Prelude.Dict.{lookup, insert, lookup-insert_cases}
use pyre_wire.Python.Result.{Result, ok, err, ◌>>=◌, traverse, wirelog, exec_error}
use pyre_wire.Python.Exec.{Exec, ◌>>=◌ as bind, pure, continue}
use pyre_wire.Python.Value.{Value}
use pyre_wire.Callbacks.{Delta, Registry}
use pyre_wire.Intern.{InternTable}
use pyre_wire.Program.{Program, Schema, schema}
use pyre_wire.Session.Deltas.Delivery.{events_of}
use pyre_wire.EasySession.{
  EasyLib, EasySession, Pending, decode_by, cache_schema, schema_from, schema_for, easy_decode_row,
}
use pyre_wire.EasySession.Steps.{easy_decode_delta, easy_decode_deltas}

-- A schema that is asked for, of a relation that must have one.
abbrev pub declared : Result (Option Schema) → Result Schema
declared (ok (some sch)) = ok sch
declared (ok none) = err (wirelog exec_error)
declared (err e) = err e

-- What decoding leaves alone: the program, the engine, the intern table, the callbacks and the inputs.
pub record View (W : Type 0) : Type 0 where
  pub program : Program
  pub world : W
  pub table : InternTable
  pub registry : Registry
  pub pending : List Pending

module _ {W : Type 0} (lib : EasyLib W) where
  -- Every schema in the session's cache is the one that the program has with that state of the engine.
  abbrev pub CacheAgrees : Program → W → EasySession W → Type 0
  CacheAgrees p w s =
      (rel : String) (sch : Schema)
      → lookup rel s.schema_cache ≡ some sch
      → schema lib.program p rel w ≡ ok (some sch)

  -- A session with these fields, every schema of whose cache is the program's.
  pub record Decodes (v : View W) (s : EasySession W) : Type 0 where
    pub program : s.schema_program ≡ some v.program
    pub world : s.world ≡ v.world
    pub table : s.table ≡ v.table
    pub registry : s.registry ≡ v.registry
    pub pending : s.pending ≡ v.pending
    pub agrees : CacheAgrees v.program v.world s

  -- A row as it decodes without the cache.
  abbrev pub decoded_row : View W → String → List ℤ → Result (List Value)
  decoded_row v rel ids =
      decode_by v.table (declared (schema lib.program v.program rel v.world)) ids

  abbrev pub decoded_delta : View W → String × List ℤ × ℤ → Result Delta
  decoded_delta v (rel, ids, diff) = do vs ← decoded_row v rel ids; ok (rel, vs, diff)

  module _ {v : View W} where
    -- A schema that the program gives may join the cache.
    insert-agrees :
        (rel : String) (s : EasySession W) (sch : Schema)
        → Decodes v s
        → schema lib.program v.program rel v.world ≡ ok (some sch)
        → (j : String) (found : Schema) → lookup j (insert rel sch s.schema_cache) ≡ some found
        → schema lib.program v.program j v.world ≡ ok (some found)
    insert-agrees rel s sch d given j found h =
        elim (lookup-insert_cases rel j sch found s.schema_cache h) [
          | inl (here, it) ↦
              ap (λ k. schema lib.program v.program k v.world) (sym here) ∙ given ∙ ap ok it
          | inr there ↦ d.agrees j found there
        ]

    cache_schema-Decodes :
        (rel : String) (s : EasySession W) (x : Result (Option Schema))
        → Decodes v s
        → schema lib.program v.program rel v.world ≡ x
        → let (res, s') = cache_schema lib rel x s in (res ≡ declared x) × Decodes v s'
    unfolding cache_schema
    cache_schema-Decodes rel s (err e) d given = (refl, d)
    cache_schema-Decodes rel s (ok none) d given = (refl, d)
    cache_schema-Decodes rel s (ok (some sch)) d given = (
      refl,
      record {
        program = d.program;
        world = d.world;
        table = d.table;
        registry = d.registry;
        pending = d.pending;
        agrees = insert-agrees rel s sch d given;
      },
    )

    schema_from-Decodes :
        (rel : String) (s : EasySession W) (c : Option Schema)
        → Decodes v s
        → lookup rel s.schema_cache ≡ c
        → let (res, s') = schema_from lib rel c (some v.program) s in
          (res ≡ declared (schema lib.program v.program rel v.world)) × Decodes v s'
    unfolding schema_from
    schema_from-Decodes rel s none d h =
        subst
          (λ u.
            let (res, s') = cache_schema lib rel (schema lib.program v.program rel u) s in
            (res ≡ declared (schema lib.program v.program rel v.world)) × Decodes v s')
          (sym d.world)
          (cache_schema-Decodes rel s (schema lib.program v.program rel v.world) d refl)
    schema_from-Decodes rel s (some sch) d h = (sym (ap declared (d.agrees rel sch h)), d)

    pub schema_for-Decodes :
        (rel : String) (s : EasySession W)
        → Decodes v s
        → let (res, s') = schema_for lib rel s in
          (res ≡ declared (schema lib.program v.program rel v.world)) × Decodes v s'
    unfolding schema_for
    schema_for-Decodes rel s d =
        subst
          (λ o.
            let (res, s') = schema_from lib rel (lookup rel s.schema_cache) o s in
            (res ≡ declared (schema lib.program v.program rel v.world)) × Decodes v s')
          (sym d.program) (schema_from-Decodes rel s (lookup rel s.schema_cache) d refl)

    -- `_decode_row` gives what the program's schema makes of a row, whatever is in the cache, and the
    -- cache goes on agreeing with the program.
    pub easy_decode_row-Decodes :
        (rel : String) (ids : List ℤ) (s : EasySession W)
        → Decodes v s
        → let (res, s') = easy_decode_row lib rel ids s in
          (res ≡ decoded_row v rel ids) × Decodes v s'
    unfolding easy_decode_row
    easy_decode_row-Decodes rel ids s d =
        let (same, d') = schema_for-Decodes rel s d in
        (ap₂ (λ u x. decode_by u x ids) d'.table same, d')

  module _ (v : View W) where
    -- A method that gives this, and keeps what decoding depends on.
    abbrev pub Gives : {A : Type 0} → Exec (EasySession W) A → Result A → Type 0
    Gives m x = (s : EasySession W) → Decodes v s → ((m s).0 ≡ x) × Decodes v (m s).1

    continue-Gives :
        {A B : Type 0} (f : A → Exec (EasySession W) B) (g : A → Result B) (s : EasySession W)
        (x : Result A)
        → ((a : A) → Gives (f a) (g a))
        → Decodes v s
        → let y = continue x f s in (y.0 ≡ (x >>= g)) × Decodes v y.1
    continue-Gives f g s (ok a) next d = next a s d
    continue-Gives f g s (err e) next d = (refl, d)

    pub bind-Gives :
        {A B : Type 0} (m : Exec (EasySession W) A) (f : A → Exec (EasySession W) B) (x : Result A)
        (g : A → Result B)
        → Gives m x
        → ((a : A) → Gives (f a) (g a))
        → Gives (bind m f) (x >>= g)
    bind-Gives m f x g first next s d =
        let (given, kept) = first s d in
        subst (λ y. let z = continue y f (m s).1 in (z.0 ≡ (x >>= g)) × Decodes v z.1) (sym given)
          (continue-Gives f g (m s).1 x next kept)

    pub pure-Gives : {A : Type 0} (a : A) → Gives (pure a) (ok a)
    pure-Gives a s d = (refl, d)

    delta-Gives : (x : String × List ℤ × ℤ) → Gives (easy_decode_delta lib x) (decoded_delta v x)
    unfolding easy_decode_delta
    delta-Gives (rel, ids, diff) =
        bind-Gives (easy_decode_row lib rel ids) _ (decoded_row v rel ids) _
          (easy_decode_row-Decodes rel ids) (λ vs. pure-Gives (rel, vs, diff))

    pub deltas-Gives :
        (ds : List (String × List ℤ × ℤ))
        → Gives (easy_decode_deltas lib (events_of ds)) (traverse (decoded_delta v) ds)
    unfolding easy_decode_deltas
    deltas-Gives [] = pure-Gives []
    deltas-Gives (x ∷ ds) =
        bind-Gives (easy_decode_delta lib x) _ (decoded_delta v x) _ (delta-Gives x) (λ y.
          bind-Gives (easy_decode_deltas lib (events_of ds)) _ (traverse (decoded_delta v) ds) _
            (deltas-Gives ds) (λ ys. pure-Gives (y ∷ ys)))
