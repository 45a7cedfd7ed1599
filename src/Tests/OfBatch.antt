-- ===== src/Tests/OfBatch.antt =====
-- Batch programs (src/pyrewire/batch.py) with an engine whose state is the list of what was freed.
use pyre_wire.Prelude.{
  ℕ, String, ◌≡◌, refl, true, false, none, List, [], ◌∷◌, arith, ◌==◌, nat_eq, if◌then◌else◌,
  string_eq,
}
use pyre_wire.Prelude.Int.{ℤ, pos}
use pyre_wire.Python.Result.{ok, err, value_error}
use pyre_wire.Ffi.Enums.{ColumnType, CompoundKind}
use pyre_wire.Ffi.Types.{FactsOut}
use pyre_wire.Program.{Column, schema, schema_of}
use pyre_wire.Batch.{BatchLib, Batch, close_batch, raise_exec}
use pyre_wire.Batch.Closing.{IsFreed, close_batch-frees}
use pyre_wire.Batch.Csv.{relation-unlinks}
use pyre_wire.Batch.Executor.{
  BatchOp, run_ops, creating, run_ops-creating, optimizing, evaluating, loading_facts,
}
use pyre_wire.Batch.Results.{Files, relation, read_rows}

abbrev no_facts : FactsOut
no_facts = record { rc = pos 1; address = 0; cells = λ i. pos 0; nrows = 0; ncols = 0 }

-- The executor is 2, the program 1, a result 3; freeing one puts it in front.
abbrev pub batch_engine : BatchLib (List ℕ)
batch_engine = record {
  optimize = λ p w. ((true, pos 0), w);
  executor_create = λ p w. ((2, pos 0), w);
  executor_free = λ e w. e ∷ w;
  load_facts_from_csv = λ e rel path w. ((true, pos 0), w);
  evaluate = λ e w. ((3, pos 0), w);
  load_all_facts = λ p e w. (pos 0, w);
  load_input_files = λ p e w. (pos 0, w);
  result_free = λ r w. r ∷ w;
  cardinality = λ r rel w. (pos 0, w);
  write_csv = λ r rel path w. ((true, pos 0), w);
  program = record {
    parse_string = λ s w. ((pos 0, 1), w);
    get_schema = λ h r w. none;
    get_facts = λ h r w. (no_facts, w);
    libc_free = λ a w. w;
    program_free = λ h w. h ∷ w;
  };
}

abbrev files : Files (List ℕ)
files = record {
  int_of_text = λ s. if s == "42" then ok (pos 42) else err value_error;
  float_of_text = λ s. err value_error;
  strip_lower = λ s. s;
  mkstemp = λ w. (ok "/tmp/rows", w);
  unlink = λ path w. 99 ∷ w;
  read_csv = λ path w. ok (("a" ∷ "b" ∷ []) ∷ []);
}

abbrev pub evaluated : Batch (List ℕ)
evaluated = record {
  program = record { handle = 1; closed = false };
  executor = 2;
  closed = false;
  results = λ k. record { handle = 3; closed = false };
  next_result = 1;
  world = [];
}

close_batch-frees_example :
    IsFreed batch_engine evaluated (close_batch batch_engine evaluated)
    × (close_batch batch_engine (close_batch batch_engine evaluated)
        ≡ close_batch batch_engine evaluated)
close_batch-frees_example =
    close_batch-frees batch_engine evaluated refl (ground arith) refl (ground arith)

no_schema : schema batch_engine.program evaluated.program "path" [] ≡ ok none
unfolding schema schema_of
no_schema = refl

relation-unlinks_example : relation batch_engine files 0 "path" evaluated ≡ (
  if true then read_rows files "/tmp/rows" none [] else raise_exec (pos 0),
  record evaluated { world = 99 ∷ [] },
)
relation-unlinks_example =
    relation-unlinks batch_engine files 0 "path" "/tmp/rows" none evaluated [] [] true (pos 0) refl
      no_schema refl refl

abbrev pipeline : List BatchOp
pipeline = optimizing ∷ loading_facts ∷ evaluating ∷ evaluating ∷ []

abbrev other_executor : ℕ → List ℕ → (ℕ × ℤ) × List ℕ
other_executor p w = ((5, pos 0), w)

run_ops-creating_example :
    ((run_ops batch_engine pipeline evaluated).executor ≡ 2)
    × (run_ops batch_engine pipeline evaluated
        ≡ run_ops (creating batch_engine other_executor) pipeline evaluated)
run_ops-creating_example =
    run_ops-creating batch_engine other_executor pipeline evaluated (ground arith)

abbrev column_of : String → ColumnType → Column
column_of name t = record {
  name = name;
  type = t;
  kind = CompoundKind.plain;
  functor_id = 0;
  arity = 0;
  inline_col_offset = 0;
}
