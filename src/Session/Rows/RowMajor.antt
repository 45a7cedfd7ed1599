-- ===== src/Session/Rows/RowMajor.antt =====
-- The row-major buffer of `_flatten` (src/pyrewire/session.py) against the way the rows of such a
-- buffer are read (`rows_of`, src/pyrewire/program.py).
use pyre_wire.Prelude.{
  ℕ, suc, ◌+◌, ◌*◌, ◌≤◌, ◌<◌, ◌≡◌, refl, ap, ap₂, subst, sym, ◌∙◌, List, [], ◌∷◌, map, length,
  range, Bool-cases, inl, inr, arith, ◌==◌, nat_eq, nat_beq_iff,
}
use pyre_wire.Prelude.Int.{ℤ}
use pyre_wire.Python.Result.{Result, ok, ◌>>=◌, >>=-eq-ok, ok-injective, traverse}
use pyre_wire.Python.Words.{c_int64}
use pyre_wire.Python.Value.{Number, int_of}
use pyre_wire.Callbacks.{at}
use pyre_wire.Program.{rows_of}
use pyre_wire.Session.Rows.{Flat, write_row, write_rows, flatten, zeros}

-- What the engine gets of a row: the ints of its values, as `int64_t`.
abbrev pub stored_row : List Number → Result (List ℤ)
stored_row = traverse (λ v. int_of v >>= λ n. ok (c_int64 n))

-- The cells from the index `k` on hold the values.
abbrev Holds : (ℕ → ℤ) → ℕ → List ℤ → Type 0
Holds cells k [] = Unit
Holds cells k (v ∷ vs) = (cells k ≡ v) × Holds cells (k + 1) vs

-- The cells below `k` are those of the other buffer.
abbrev SameBelow : ℕ → (ℕ → ℤ) → (ℕ → ℤ) → Type 0
SameBelow k f g = (i : ℕ) → i < k → f i ≡ g i

Holds-SameBelow :
    (f g : ℕ → ℤ) (k : ℕ) (ns : List ℤ) (m : ℕ)
    → k + length ns ≤ m
    → SameBelow m g f
    → Holds f k ns
    → Holds g k ns
Holds-SameBelow f g k [] m fits same h = tt
Holds-SameBelow f g k (n ∷ ns) m fits same h =
    (same k (omega arith) ∙ h.0, Holds-SameBelow f g (k + 1) ns m (omega arith) same h.1)

-- What a row's loop has written.
record RowWritten (k : ℕ) (vs : List Number) (cells cells' : ℕ → ℤ) : Type 0 where
  ns : List ℤ
  stored : stored_row vs ≡ ok ns
  holds : Holds cells' k ns
  same : SameBelow k cells' cells
  width : length ns ≡ length vs

at_ne : (f : ℕ → ℤ) (k i : ℕ) (v : ℤ) → i < k → at f k v i ≡ f i
at_ne f k i v h = ground arith

at_self : (f : ℕ → ℤ) (k : ℕ) (v : ℤ) → at f k v k ≡ v
at_self f k v = ground arith

write_row_lem :
    (k : ℕ) (vs : List Number) (cells cells' : ℕ → ℤ)
    → write_row k vs cells ≡ ok cells'
    → RowWritten k vs cells cells'
unfolding write_row
write_row_lem k [] cells cells' h = record {
  ns = [];
  stored = refl;
  holds = tt;
  same = λ i below. cc;
  width = refl;
}
write_row_lem k (v ∷ vs) cells cells' h =
    let (n, en, rest) =
      >>=-eq-ok (int_of v) (λ m. write_row (k + 1) vs (at cells k (c_int64 m))) h in
    let w = write_row_lem (k + 1) vs (at cells k (c_int64 n)) cells' rest in
    record {
      ns = c_int64 n ∷ w.ns;
      stored = cc (en, w.stored);
      holds = (w.same k (omega arith) ∙ at_self cells k (c_int64 n), w.holds);
      same = λ i below. w.same i (omega arith) ∙ at_ne cells k i (c_int64 n) below;
      width = ap suc w.width;
    }

-- The rows from row `i` on, each `c` wide.
abbrev HoldsRows : (ℕ → ℤ) → ℕ → ℕ → List (List ℤ) → Type 0
HoldsRows cells c i [] = Unit
HoldsRows cells c i (ns ∷ nss) =
    Holds cells (i * c) ns × (length ns ≡ c) × HoldsRows cells c (i + 1) nss

record RowsWritten (c i : ℕ) (rows : List (List Number)) (cells cells' : ℕ → ℤ) : Type 0 where
  nss : List (List ℤ)
  stored : traverse stored_row rows ≡ ok nss
  holds : HoldsRows cells' c i nss
  same : SameBelow (i * c) cells' cells
  count : length nss ≡ length rows

write_rows_lem :
    (c i : ℕ) (rows : List (List Number)) (cells cells' : ℕ → ℤ)
    → write_rows c i rows cells ≡ ok cells'
    → RowsWritten c i rows cells cells'
unfolding write_rows
write_rows_lem c i [] cells cells' h = record {
  nss = [];
  stored = refl;
  holds = tt;
  same = λ j below. cc;
  count = refl;
}
write_rows_lem c i (r ∷ rs) cells cells' h = elim (Bool-cases (length r == c)) [
  | inr ragged ↦ absurd (ground arith)
  | inl wide ↦
      let (mid, written, rest) =
        >>=-eq-ok (write_row (i * c) r cells) (write_rows c (i + 1) rs) (rw wide at h) in
      let w = write_row_lem (i * c) r cells mid written in
      let ws = write_rows_lem c (i + 1) rs mid cells' rest in
      let width : length w.ns ≡ c = w.width ∙ (nat_beq_iff (length r) c).0 wide in
      record {
        nss = w.ns ∷ ws.nss;
        stored = cc (w.stored, ws.stored);
        holds = (
          Holds-SameBelow mid cells' (i * c) w.ns ((i + 1) * c) (omega (arith, width)) ws.same
              w.holds,
          width,
          ws.holds,
        );
        same = λ j below. ws.same j (omega arith) ∙ w.same j below;
        count = ap suc ws.count;
      }
]

read_row_lem :
    (cells : ℕ → ℤ) (b s : ℕ) (ns : List ℤ)
    → Holds cells (b + s) ns
    → map (λ j. cells (b + j)) (range s (length ns)) ≡ ns
read_row_lem cells b s [] h = refl
read_row_lem cells b s (n ∷ ns) h =
    let shifted : b + s + 1 ≡ b + suc s = omega arith in
    cc (h.0, read_row_lem cells b (suc s) ns (subst (λ k. Holds cells k ns) shifted h.1))

read_rows_lem :
    (cells : ℕ → ℤ) (c s : ℕ) (nss : List (List ℤ))
    → HoldsRows cells c s nss
    → map (λ i. map (λ j. cells (i * c + j)) (range 0 c)) (range s (length nss)) ≡ nss
read_rows_lem cells c s [] h = refl
read_rows_lem cells c s (ns ∷ nss) h =
    let start : s * c ≡ s * c + 0 = omega arith in
    let row : map (λ j. cells (s * c + j)) (range 0 (length ns)) ≡ ns =
      read_row_lem cells (s * c) 0 ns (subst (λ k. Holds cells k ns) start h.0) in
    let later : s + 1 ≡ suc s = omega arith in
    let rest = read_rows_lem cells c (suc s) nss (subst (λ k. HoldsRows cells c k nss) later h.2) in
    ap₂ ◌∷◌ (subst (λ k. map (λ j. cells (s * c + j)) (range 0 k) ≡ ns) h.1 row) rest

-- What the loop over the rows has written reads, row by row, as the rows.
pub rows_of-write_rows :
    (c : ℕ) (rows : List (List Number)) (cells cells' : ℕ → ℤ)
    → write_rows c 0 rows cells ≡ ok cells'
    → traverse stored_row rows ≡ ok (rows_of cells' (length rows) c)
unfolding rows_of
rows_of-write_rows c rows cells cells' written =
    let w = write_rows_lem c 0 rows cells cells' written in
    let rows_read = read_rows_lem cells' c 0 w.nss w.holds in
    let read_back : rows_of cells' (length w.nss) c ≡ w.nss = rows_read in
    w.stored ∙ ap ok (sym read_back ∙ ap (λ n. rows_of cells' n c) w.count)

-- If `_flatten` returns a buffer, the engine reads from it, row by row, the very rows that the caller
-- gave, each value as an `int64_t`.
pub rows_of-flatten :
    (rows : List (List Number)) {f : Flat}
    → flatten rows ≡ ok f
    → traverse stored_row rows ≡ ok (rows_of f.cells f.nrows f.ncols)
unfolding flatten rows_of
rows_of-flatten [] h = cc
rows_of-flatten (r ∷ rs) {f} h = elim (Bool-cases (length r == 0)) [
  | inl empty ↦ absurd (ground arith)
  | inr wide ↦
      let (cells, written, built) =
        >>=-eq-ok (write_rows (length r) 0 (r ∷ rs) zeros) _ (rw wide at h) in
      rows_of-write_rows (length r) (r ∷ rs) zeros cells written
      ∙ ap ok (ap (λ (g : Flat). rows_of g.cells g.nrows g.ncols) (ok-injective built))
]
