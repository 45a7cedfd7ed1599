-- ===== src/IoAdapter/Stopping.antt =====
-- A read that stops at a row (src/pyrewire/io_adapter.py, `_read`).
use pyre_wire.Prelude.{
  ℕ, ◌+◌, ◌*◌, ◌≡◌, ◌≢◌, ◌⊎◌, refl, sym, ap, ◌∙◌, inl, inr, none, List, [], ◌∷◌, ◌++◌, length, All,
  Bool-cases, ◌==◌, nat_eq, nat_beq_iff, arith,
}
use pyre_wire.Prelude.Int.{ℤ, negsuc}
use pyre_wire.Python.Result.{Exc, ok, err, >>=-eq-ok, traverse}
use pyre_wire.Python.Value.{Number}
use pyre_wire.Session.Rows.RowMajor.{stored_row}
use pyre_wire.IoAdapter.{
  Ending, Malloc, fill_rows, read_end, read_allocated, read_callback, returned, raised, cell_size,
}
use pyre_wire.IoAdapter.Reading.{allocated}
use pyre_wire.Session.Rows.Filling.{write_row_total, write_row-stored_row}

-- The loop goes past rows that can be written.
fill_rows-append :
    (c i : ℕ) (before rest : List (List Number)) (nss : List (List ℤ)) (cells : ℕ → ℤ)
    → All (λ r. length r ≡ c) before
    → traverse stored_row before ≡ ok nss
    → (k : ℕ) × (cells' : ℕ → ℤ) × (fill_rows c i (before ++ rest) cells
        ≡ fill_rows c k rest cells')
unfolding fill_rows
fill_rows-append c i [] rest nss cells wide h = (i, cells, refl)
fill_rows-append c i (r ∷ rs) rest nss cells (wide, all) h =
    let (ns, first, later) = >>=-eq-ok (stored_row r) _ h in
    let (mss, others, _) = >>=-eq-ok (traverse stored_row rs) _ later in
    let (mid, written) = write_row_total (i * c) r ns cells first in
    let (k, cells', e) = fill_rows-append c (i + 1) rs rest mss mid all others in
    (k, cells', rw ((nat_beq_iff (length r) c).1 wide, written) e)

-- How `_read` ends at a row that cannot be stored.
abbrev pub StopsWith : ℕ → List Number → Ending → Type 0
StopsWith ncols bad ending =
    ((length bad ≢ ncols) × (ending ≡ returned (negsuc 0) none))
    ⊎ ((e : Exc) × (length bad ≡ ncols) × (stored_row bad ≡ err e) × (ending ≡ raised e))

fill_rows-StopsWith :
    (c k address n : ℕ) (bad : List Number) (after : List (List Number)) (cells : ℕ → ℤ)
    (ending : Ending)
    → StopsWith c bad ending
    → read_end address n (fill_rows c k (bad ∷ after) cells) ≡ ending
unfolding fill_rows read_end
fill_rows-StopsWith c k address n bad after cells ending (inl (other, e)) =
    elim (Bool-cases (length bad == c)) [
      | inl same ↦ absurd (ground (arith, same, other))
      | inr differs ↦ rw differs (sym e)
    ]
fill_rows-StopsWith c k address n bad after cells ending (inr (x, wide, refused, e)) =
    rw ((nat_beq_iff (length bad) c).1 wide, write_row-stored_row (k * c) bad x cells refused)
      (sym e)

module _ {W : Type 0} (malloc : Malloc W) where
  read_allocated_some :
      (ncols : ℕ) (before : List (List Number)) (bad : List Number) (after : List (List Number))
      (w : W)
      → read_callback malloc ncols (ok (before ++ bad ∷ after)) w
        ≡ read_allocated malloc ncols (before ++ bad ∷ after) w
  unfolding read_callback
  read_allocated_some ncols [] bad after w = refl
  read_allocated_some ncols (r ∷ rs) bad after w = refl

  -- The first row that cannot be stored decides, whatever comes after it: at one of another width
  -- `_read` returns -1, and at one with a value that `int` refuses it does not return its -1 but
  -- raises into ctypes. Either way nothing is put in the out-parameters, and the memory that has been
  -- allocated stays so, as `free` is not called.
  pub read_callback-StopsWith :
      (ncols : ℕ) (before : List (List Number)) (bad : List Number) (after : List (List Number))
      (nss : List (List ℤ)) (w w' : W) (address : ℕ) (cells : ℕ → ℤ) (ending : Ending)
      → malloc (length (before ++ bad ∷ after) * ncols * cell_size) w ≡ ((address, cells), w')
      → address ≢ 0
      → All (λ row. length row ≡ ncols) before
      → traverse stored_row before ≡ ok nss
      → StopsWith ncols bad ending
      → read_callback malloc ncols (ok (before ++ bad ∷ after)) w ≡ (ending, w')
  read_callback-StopsWith ncols before bad after nss w w' address cells ending made there wide ints
        stops =
      let rows = before ++ bad ∷ after in
      let (k, cells', same) = fill_rows-append ncols 0 before (bad ∷ after) nss cells wide ints in
      read_allocated_some ncols before bad after w
      ∙ allocated malloc ncols rows w w' address cells (fill_rows ncols k (bad ∷ after) cells') made
          there same
      ∙ ap (λ x. (x, w'))
          (fill_rows-StopsWith ncols k address (length rows) bad after cells' ending stops)
