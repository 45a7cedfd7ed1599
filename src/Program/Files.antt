-- ===== src/Program/Files.antt =====
-- Parsing a file (src/pyrewire/program.py, `Program.from_file`).
use pyre_wire.Prelude.{ℕ, String, Option, none, some, false, ◌==◌, nat_eq, string_eq, if◌then◌else◌}
use pyre_wire.Prelude.Int.{ℤ}
use pyre_wire.Python.Result.{Result, ok, ◌>>=◌}
use pyre_wire.Ffi.Types.{CString, decode_or}
use pyre_wire.Program.{Program}

-- `ParseErrorStruct`
pub record ParseErrorStruct : Type 0 where
  pub error_code : ℤ
  pub message : CString
  pub line : ℕ
  pub column : ℕ
  pub source : CString

-- The `ParseError` that is raised; the message is `none` where the code writes its own.
pub record ParseFailure : Type 0 where
  pub message : Option String
  pub line : Option ℕ
  pub column : Option ℕ
  pub source : Option String

-- The parsed program, or the error; where a text of the engine is no UTF-8, decoding it raises.
pub data Parsed : Type 0 where
  parsed : Program → Parsed
  refused : ParseFailure → Parsed

abbrev number_or_none : ℕ → Option ℕ
number_or_none n = if n == 0 then none else some n

abbrev text_or_none : String → Option String
text_or_none s = if s == "" then none else some s

unfoldable pub failure_of : ParseErrorStruct → Result ParseFailure
failure_of info = do
  message ← decode_or "" info.message
  source ← decode_or "" info.source
  ok (record {
    message = text_or_none message;
    line = number_or_none info.line;
    column = number_or_none info.column;
    source = text_or_none source;
  })

-- `Program.from_file(path)`, with the engine's `parse_with_error_info`.
unfoldable pub from_file :
    {W : Type 0} → (String → W → (ℕ × ParseErrorStruct) × W) → String → W → Result Parsed × W
from_file parse path w =
    let ((h, info), w') = parse path w in
    (
      if h == 0
          then (do f ← failure_of info; ok (refused f))
          else ok (parsed (record { handle = h; closed = false })),
      w',
    )
