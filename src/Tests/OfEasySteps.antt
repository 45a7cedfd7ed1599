-- ===== src/Tests/OfEasySteps.antt =====
-- Steps and the end of an `EasySession` (src/pyrewire/session.py) and the printer of deltas
-- (src/pyrewire/helpers.py), with a small engine whose state is the deltas that it reports next.
use pyre_wire.Prelude.{String, ◌≡◌, refl, false, none, some, List, [], ◌∷◌, ◌==◌, nat_eq, string_eq}
use pyre_wire.Prelude.Int.{ℤ, pos, negsuc, int_eq}
use pyre_wire.Prelude.Dict.{lookup}
use pyre_wire.Python.Value.{Value}
use pyre_wire.Ffi.Types.{CString, SchemaStruct, ColumnStruct, FactsOut}
use pyre_wire.Errors.{check}
use pyre_wire.Callbacks.{Kind, CallbackHandle, Delta, fresh_state}
use pyre_wire.Intern.{empty_table}
use pyre_wire.Program.{Program}
use pyre_wire.Session.Object.{Mode}
use pyre_wire.Session.Deltas.Delivery.{reports, after}
use pyre_wire.Helpers.{PrintDelta}
use pyre_wire.EasySession.{EasyLib, EasySession, row_input}
use pyre_wire.EasySession.Steps.{easy_step}
use pyre_wire.EasySession.Steps.Delivery.{IsEasyArmed, easy_step-reports, told_deltas, inputs_after}

abbrev Reported : Type 0
Reported = List (String × List ℤ × ℤ)

abbrev bool_column : ColumnStruct
bool_column = record {
  name = CString.text "seen";
  type_code = pos 5;
  compound_kind = pos 0;
  compound_functor_id = 0;
  compound_arity = 0;
  compound_inline_col_offset = 0;
}

abbrev flag_schema : SchemaStruct
flag_schema = record {
  relation_name = CString.text "flag";
  columns = λ i. bool_column;
  column_count = 1;
}

abbrev nothing : FactsOut
nothing = record { rc = pos 1; address = 0; cells = λ i. pos 0; nrows = 0; ncols = 0 }

abbrev easy_engine : EasyLib Reported
easy_engine = record {
  intern_symbol = λ h s w. (pos 1, w);
  insert_row = λ h rel cells n w. (pos 0, w);
  remove_row = λ h rel cells n w. (pos 0, w);
  insert_symbols = λ h rel ss w. (pos 0, w);
  remove_symbols = λ h rel ss w. (pos 0, w);
  open_opts = λ source opts w. ((pos 0, 1), w);
  close = λ h w. [];
  set_delta_cb = λ h u w. (pos 0, w);
  step = λ h w. ((pos 0, reports 1 w), []);
  snapshot = λ h rel u w. ((pos 0, []), w);
  make_compound = λ h f n args w. ((pos 0, 7), w);
  program = record {
    parse_string = λ s w. ((pos 0, 1), w);
    get_schema = λ h r w. some flag_schema;
    get_facts = λ h r w. (nothing, w);
    libc_free = λ a w. w;
    program_free = λ h w. w;
  };
}

abbrev handle : CallbackHandle
handle = record { kind = Kind.delta; token = 1 }

abbrev deltas : Reported
deltas = ("flag", pos 1 ∷ [], pos 1) ∷ ("flag", pos 0 ∷ [], negsuc 0) ∷ []

abbrev parsed : Program
parsed = record { handle = 1; closed = false }

abbrev armed : EasySession Reported
armed = record {
  handle = 1;
  closed = false;
  mode = Mode.incremental;
  table = empty_table;
  compounds = 0 ∷ [];
  objects = λ k. record { functor = "f"; arity = 0; handle = 4; invalidated = false };
  next_object = 1;
  schema_program = some parsed;
  schema_cache = [];
  delta_cb = some handle;
  pending = row_input "flag" (pos 1 ∷ []) ∷ [];
  registry = record { next_token = 2; live = λ t. t == 1; states = λ t. fresh_state none };
  world = deltas;
}

armed-IsEasyArmed : IsEasyArmed handle armed
armed-IsEasyArmed = record {
  mode = refl;
  callback = refl;
  live = refl;
  no_events = refl;
  no_error = refl;
}

no_schema : {A : Type 0} {x : A} (rel : String) → lookup {V = A} rel [] ≡ some x → ⊥
unfolding lookup
no_schema rel h = cc

easy_step-reports_example :
    ((easy_step easy_engine armed).0
      ≡ after (check (pos 0)) (told_deltas easy_engine parsed [] handle deltas armed))
    × ((easy_step easy_engine armed).1.pending ≡ inputs_after (check (pos 0)) armed.pending)
easy_step-reports_example =
    easy_step-reports easy_engine parsed handle armed (pos 0) deltas [] armed-IsEasyArmed refl refl
      (λ rel sch h. absurd (no_schema rel h))

abbrev printer : PrintDelta
printer = record { object = 9; address = some 4096 }

abbrev printed : Delta
printed = ("flag", Value.int (pos 7) ∷ Value.str "x" ∷ [], pos 1)
