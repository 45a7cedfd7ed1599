-- ===== src/Session/Rows/Filling.antt =====
-- Which rows can be written to a buffer of `int64_t` (src/pyrewire/session.py, `_flatten`).
use pyre_wire.Prelude.{
  ℕ, ◌+◌, ◌*◌, ◌≡◌, ◌≢◌, ◌⊎◌, refl, inl, inr, List, [], ◌∷◌, ◌++◌, length, All, Bool-cases, ◌==◌,
  nat_eq, nat_beq_iff, arith,
}
use pyre_wire.Prelude.Int.{ℤ}
use pyre_wire.Python.Result.{Exc, ok, err, value_error, ◌>>=◌, >>=-eq-ok, >>=-eq-err, traverse}
use pyre_wire.Python.Words.{c_int64}
use pyre_wire.Python.Value.{Number, int_of}
use pyre_wire.Callbacks.{at}
use pyre_wire.Session.Rows.{write_row, write_rows, flatten, zeros}
use pyre_wire.Session.Rows.RowMajor.{stored_row}

-- A row of ints can be written.
pub write_row_total :
    (k : ℕ) (vs : List Number) (ns : List ℤ) (cells : ℕ → ℤ)
    → stored_row vs ≡ ok ns
    → (cells' : ℕ → ℤ) × (write_row k vs cells ≡ ok cells')
unfolding write_row
write_row_total k [] ns cells h = (cells, refl)
write_row_total k (v ∷ vs) ns cells h =
    let (y, first, later) = >>=-eq-ok (int_of v >>= λ n. ok (c_int64 n)) _ h in
    let (n, en, _) = >>=-eq-ok (int_of v) _ first in
    let (ys, others, _) = >>=-eq-ok (stored_row vs) _ later in
    let (cells', e) = write_row_total (k + 1) vs ys (at cells k (c_int64 n)) others in
    (cells', rw en e)

-- A row with a value that `int` refuses cannot be written.
pub write_row-stored_row :
    (k : ℕ) (vs : List Number) (e : Exc) (cells : ℕ → ℤ)
    → stored_row vs ≡ err e
    → write_row k vs cells ≡ err e
unfolding write_row
write_row-stored_row k [] e cells h = absurd (cc h)
write_row-stored_row k (v ∷ vs) e cells h =
    elim (>>=-eq-err (int_of v >>= λ n. ok (c_int64 n)) _ h) [
      | inl here ↦ elim (>>=-eq-err (int_of v) _ here) [
        | inl refused ↦ rw refused refl
        | inr (n, _, went_on) ↦ absurd (cc went_on)
      ]
      | inr (n, first, later) ↦ elim (>>=-eq-err (stored_row vs) _ later) [
        | inl rest ↦
            let (m, en, _) = >>=-eq-ok (int_of v) _ first in
            rw en (write_row-stored_row (k + 1) vs e (at cells k (c_int64 m)) rest)
        | inr (ns, _, went_on) ↦ absurd (cc went_on)
      ]
    ]

-- Why a row stops `_flatten`: its width, or a value that `int` refuses.
abbrev pub IsRefused : ℕ → List Number → Exc → Type 0
IsRefused c bad e =
    ((length bad ≢ c) × (e ≡ value_error)) ⊎ ((length bad ≡ c) × (stored_row bad ≡ err e))

write_rows-IsRefused :
    (c i : ℕ) (bad : List Number) (after : List (List Number)) (e : Exc) (cells : ℕ → ℤ)
    → IsRefused c bad e
    → write_rows c i (bad ∷ after) cells ≡ err e
unfolding write_rows
write_rows-IsRefused c i bad after e cells (inl (other, same)) =
    elim (Bool-cases (length bad == c)) [
      | inl wide ↦ absurd (ground (arith, wide, other))
      | inr differs ↦ rw (differs, same) refl
    ]
write_rows-IsRefused c i bad after e cells (inr (wide, refused)) =
    rw ((nat_beq_iff (length bad) c).1 wide, write_row-stored_row (i * c) bad e cells refused) refl

write_rows-append :
    (c i : ℕ) (before : List (List Number)) (bad : List Number) (after : List (List Number))
    (nss : List (List ℤ)) (e : Exc) (cells : ℕ → ℤ)
    → All (λ r. length r ≡ c) before
    → traverse stored_row before ≡ ok nss
    → IsRefused c bad e
    → write_rows c i (before ++ bad ∷ after) cells ≡ err e
unfolding write_rows
write_rows-append c i [] bad after nss e cells wide h refused =
    write_rows-IsRefused c i bad after e cells refused
write_rows-append c i (r ∷ rs) bad after nss e cells (wide, all) h refused =
    let (ns, first, later) = >>=-eq-ok (stored_row r) _ h in
    let (mss, others, _) = >>=-eq-ok (traverse stored_row rs) _ later in
    let (mid, written) = write_row_total (i * c) r ns cells first in
    rw ((nat_beq_iff (length r) c).1 wide, written)
      (write_rows-append c (i + 1) rs bad after mss e mid all others refused)

-- The width of the first row, which is that of the batch.
abbrev pub width : List (List Number) → ℕ
width [] = 0
width (r ∷ rs) = length r

flatten-err :
    (rows : List (List Number)) (e : Exc)
    → width rows ≢ 0
    → write_rows (width rows) 0 rows zeros ≡ err e
    → flatten rows ≡ err e
unfolding flatten
flatten-err [] e some_columns h = absurd (some_columns refl)
flatten-err (r ∷ rs) e some_columns h = elim (Bool-cases (length r == 0)) [
  | inl empty ↦ absurd (some_columns ((nat_beq_iff (length r) 0).0 empty))
  | inr columns ↦ rw (columns, h) refl
]

-- The first row that cannot be written decides.
pub flatten-IsRefused :
    (before : List (List Number)) (bad : List Number) (after : List (List Number))
    (nss : List (List ℤ)) (e : Exc)
    → width (before ++ bad ∷ after) ≢ 0
    → All (λ r. length r ≡ width (before ++ bad ∷ after)) before
    → traverse stored_row before ≡ ok nss
    → IsRefused (width (before ++ bad ∷ after)) bad e
    → flatten (before ++ bad ∷ after) ≡ err e
flatten-IsRefused before bad after nss e some_columns all ints refused =
    flatten-err (before ++ bad ∷ after) e some_columns
      (write_rows-append _ 0 before bad after nss e zeros all ints refused)
