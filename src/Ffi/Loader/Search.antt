-- ===== src/Ffi/Loader/Search.antt =====
-- Which library is loaded (src/pyrewire/_ffi/_loader.py).
use pyre_wire.Prelude.{
  String, ◌≡◌, refl, ap, List, [], ◌∷◌, ◌++◌, arith, eq_test_iff, string_eq, ◌≢◌,
}
use pyre_wire.Ffi.Loader.{
  Surroundings, candidate_paths, Linker, Candidate, usable, passed, Loaded, loaded, missing,
  Attempt, try_candidate, load_first, load_libwirelog, continue_with,
}

module _ {H : Type 0} (linker : Linker H) where
  -- Candidates that are passed over, each with the attempt that tells of it.
  abbrev pub ArePassed : List String → List Attempt → Type 0
  ArePassed [] [] = Unit
  ArePassed [] (a ∷ tried) = ⊥
  ArePassed (path ∷ paths) [] = ⊥
  ArePassed (path ∷ paths) (a ∷ tried) =
      (try_candidate linker path ≡ passed a) × ArePassed paths tried

  -- What a search has come to: a candidate that loads, all before it passed over; or all passed over.
  abbrev pub IsSearch : List String → Loaded H → Type 0
  IsSearch paths (loaded h) =
      (before : List String) × (path : String) × (after : List String) × (tried : List Attempt)
      × (paths ≡ before ++ path ∷ after)
      × ArePassed before tried
      × (try_candidate linker path ≡ usable h)
  IsSearch paths (missing tried) = ArePassed paths tried

  continue_with-IsSearch :
      (path : String) (paths : List String) (x : Candidate H) (y : Loaded H)
      → try_candidate linker path ≡ x
      → IsSearch paths y
      → IsSearch (path ∷ paths) (continue_with x y)
  continue_with-IsSearch path paths (usable h) y e found = ([], path, paths, [], refl, tt, e)
  continue_with-IsSearch path paths (passed a) (loaded h) e found =
      let (before, here, after, tried, all, skipped, loads) = found in
      (path ∷ before, here, after, a ∷ tried, ap (λ ps. path ∷ ps) all, (e, skipped), loads)
  continue_with-IsSearch path paths (passed a) (missing tried) e found = (e, found)

  load_first-IsSearch : (paths : List String) → IsSearch paths (load_first linker paths)
  unfolding load_first
  load_first-IsSearch [] = tt
  load_first-IsSearch (path ∷ paths) =
      continue_with-IsSearch path paths (try_candidate linker path) (load_first linker paths) refl
        (load_first-IsSearch paths)

  -- `load_libwirelog` gives the first of the candidate paths that loads and has the sentinel symbol,
  -- all before it passed over; if there is none, it raises, and tells of every candidate, in their
  -- order, why it was passed over. With `$WIRELOG_LIB` set, that path is the only candidate.
  pub load_libwirelog-IsSearch :
      (p : Surroundings)
      → IsSearch (candidate_paths p) (load_libwirelog linker p)
        × (p.override ≢ "" → candidate_paths p ≡ p.override ∷ [])
  unfolding load_libwirelog candidate_paths
  load_libwirelog-IsSearch p = (
    load_first-IsSearch (candidate_paths p),
    λ set. ground (arith, set, eq_test_iff p.override ""),
  )
