-- ===== src/IoAdapter/Reading.antt =====
-- What the engine reads from an adapter (src/pyrewire/io_adapter.py, `_read`).
use pyre_wire.Prelude.{
  ℕ, ◌<◌, ◌^◌, ◌+◌, ◌*◌, ◌≡◌, ◌≢◌, refl, sym, ap, ◌∙◌, inl, inr, some, List, [], ◌∷◌, length, All,
  Bool-cases, ◌==◌, nat_eq, nat_beq_iff, arith,
}
use pyre_wire.Prelude.Int.{ℤ, pos}
use pyre_wire.Python.Result.{ok, >>=-eq-ok, ok-injective, traverse}
use pyre_wire.Python.Words.{c_uint32}
use pyre_wire.Python.Value.{Number}
use pyre_wire.Program.{rows_of}
use pyre_wire.Session.Rows.{write_row, write_rows}
use pyre_wire.Session.Rows.Filling.{write_row_total}
use pyre_wire.Session.Rows.RowMajor.{stored_row, rows_of-write_rows}
use pyre_wire.IoAdapter.{
  Buffer, Filled, Malloc, fill_rows, filled, read_end, read_allocated, read_callback, returned,
  cell_size,
}

fill_rows-write_rows :
    (c i : ℕ) (rows : List (List Number)) (cells cells' : ℕ → ℤ)
    → write_rows c i rows cells ≡ ok cells'
    → fill_rows c i rows cells ≡ filled cells'
unfolding fill_rows write_rows
fill_rows-write_rows c i [] cells cells' h = ap filled (ok-injective h)
fill_rows-write_rows c i (r ∷ rs) cells cells' h = elim (Bool-cases (length r == c)) [
  | inr other ↦ absurd (ground (arith, other))
  | inl wide ↦
      let (mid, written, rest) =
        >>=-eq-ok (write_row (i * c) r cells) (write_rows c (i + 1) rs) (rw wide at h) in
      rw (wide, written) (fill_rows-write_rows c (i + 1) rs mid cells' rest)
]

pub write_rows_total :
    (c i : ℕ) (rows : List (List Number)) (nss : List (List ℤ)) (cells : ℕ → ℤ)
    → All (λ r. length r ≡ c) rows
    → traverse stored_row rows ≡ ok nss
    → (cells' : ℕ → ℤ) × (write_rows c i rows cells ≡ ok cells')
unfolding write_rows
write_rows_total c i [] nss cells wide h = (cells, refl)
write_rows_total c i (r ∷ rs) nss cells (wide, all) h =
    let (ns, first, later) = >>=-eq-ok (stored_row r) _ h in
    let (mss, others, _) = >>=-eq-ok (traverse stored_row rs) _ later in
    let (mid, written) = write_row_total (i * c) r ns cells first in
    let (cells', e) = write_rows_total c (i + 1) rs mss mid all others in
    (cells', rw ((nat_beq_iff (length r) c).1 wide, written) e)

c_uint32_id : (n : ℕ) → n < 2 ^ 32 → c_uint32 n ≡ n
unfolding c_uint32
c_uint32_id n fit = omega (arith, fit)

-- A buffer at that address, in which the number of rows that stands there gives the rows, each value as
-- an `int64_t`.
abbrev pub IsRows : ℕ → ℕ → List (List ℤ) → Buffer → Type 0
IsRows address ncols nss b = (b.address ≡ address) × (rows_of b.cells b.nrows ncols ≡ nss)

module _ {W : Type 0} (malloc : Malloc W) where
  pub allocated :
      (ncols : ℕ) (rows : List (List Number)) (w w' : W) (address : ℕ) (cells : ℕ → ℤ) (x : Filled)
      → malloc (length rows * ncols * cell_size) w ≡ ((address, cells), w')
      → address ≢ 0
      → fill_rows ncols 0 rows cells ≡ x
      → read_allocated malloc ncols rows w ≡ (read_end address (length rows) x, w')
  unfolding read_allocated
  allocated ncols rows w w' address cells x made there e = rw (made, e) (ground (arith, there))

  -- Rows of ints, one at least, less than 2 ^ 32, and each as wide as the engine's columns: once there is memory, `_read`
  -- returns 0, and the engine finds a buffer from which it reads, row by row, the very rows that the
  -- adapter returned, each value as an `int64_t`.
  pub read_callback-delivers :
      (ncols : ℕ) (r : List Number) (rs : List (List Number)) (nss : List (List ℤ)) (w w' : W)
      (address : ℕ) (cells : ℕ → ℤ)
      → malloc (length (r ∷ rs) * ncols * cell_size) w ≡ ((address, cells), w')
      → address ≢ 0
      → length (r ∷ rs) < 2 ^ 32
      → All (λ row. length row ≡ ncols) (r ∷ rs)
      → traverse stored_row (r ∷ rs) ≡ ok nss
      → (b : Buffer) × (read_callback malloc ncols (ok (r ∷ rs)) w
          ≡ (returned (pos 0) (some b), w'))
        × IsRows address ncols nss b
  unfolding read_callback read_end
  read_callback-delivers ncols r rs nss w w' address cells made there fit wide ints =
      let (cells', written) = write_rows_total ncols 0 (r ∷ rs) nss cells wide ints in
      let n = length (r ∷ rs) in
      (
        record { address = address; cells = cells'; nrows = c_uint32 n },
        allocated ncols (r ∷ rs) w w' address cells (filled cells') made there
            (fill_rows-write_rows ncols 0 (r ∷ rs) cells cells' written),
        (
          refl,
          ap (λ k. rows_of cells' k ncols) (c_uint32_id n fit)
              ∙ ok-injective (sym (rows_of-write_rows ncols (r ∷ rs) cells cells' written) ∙ ints),
        ),
      )
