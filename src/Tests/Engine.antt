-- ===== src/Tests/Engine.antt =====
-- A small engine for the tests of the sessions: its state is the list of the calls of a trampoline
-- that it makes when the program is run next.
use pyre_wire.Prelude.{true, false, none, List, []}
use pyre_wire.Prelude.Int.{pos}
use pyre_wire.Ffi.Types.{TypedError, FactsOut, no_index}
use pyre_wire.Callbacks.{Invocation, fresh_state}
use pyre_wire.Intern.{empty_table}
use pyre_wire.Session.Object.{Session, SessionLib, Mode}

abbrev pub no_facts : FactsOut
no_facts = record { rc = pos 1; address = 0; cells = λ i. pos 0; nrows = 0; ncols = 0 }

abbrev pub no_typed_error : TypedError
no_typed_error = record { code = 0; row_index = no_index; logical_col = no_index; message = "" }

abbrev pub engine : SessionLib (List Invocation)
engine = record {
  create = λ p b n w. ((pos 0, 1), w);
  destroy = λ h w. [];
  insert = λ h rel cells r c w. (pos 0, w);
  remove = λ h rel cells r c w. (pos 0, w);
  insert_typed = λ h rel rows n w. ((pos 0, no_typed_error), w);
  remove_typed = λ h rel rows n w. ((pos 0, no_typed_error), w);
  set_delta_cb = λ h u w. (pos 0, w);
  set_typed_delta_cb = λ h u w. (pos 0, w);
  step = λ h w. ((pos 0, w), []);
  snapshot = λ h u w. ((pos 0, w), []);
  snapshot_typed = λ h u w. ((pos 0, w), []);
  make_compound = λ h f n args w. ((pos 0, 7), w);
  typed_rows = true;
  program = record {
    parse_string = λ s w. ((pos 0, 1), w);
    get_schema = λ h r w. none;
    get_facts = λ h r w. (no_facts, w);
    libc_free = λ a w. w;
    program_free = λ h w. w;
  };
}

-- The engine of a program with a FLOAT column: it takes no delta callback.
abbrev pub refusing_engine : SessionLib (List Invocation)
refusing_engine = record engine { set_delta_cb = λ h u w. (pos 3, w) }

abbrev pub session_with : Mode → List Invocation → Session (List Invocation)
session_with m pending = record {
  program = record { handle = 1; closed = false };
  handle = 1;
  closed = false;
  mode = m;
  delta_cb = none;
  intern = empty_table;
  compounds = [];
  objects = λ k. record { functor = ""; arity = 0; handle = 0; invalidated = false };
  next_object = 0;
  registry = record { next_token = 1; live = λ t. false; states = λ t. fresh_state none };
  world = pending;
}
