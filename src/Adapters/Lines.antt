-- ===== src/Adapters/Lines.antt =====
-- The loop over the lines of a streamed response that both adapters have, with the body of the
-- loop as a parameter: it keeps a state and says what a line leads to.
use llmops_gateway.Prelude.{
  ℕ, String, Option, none, some, List, [], ◌∷◌, if◌then◌else◌, ◌==◌, nat_eq,
}
use llmops_gateway.Prelude.Texts.{drop_text, text_length}
use llmops_gateway.Caching.Hashing.{lstrip, rstrip}
use llmops_gateway.Errors.{Exn, Result, ok, err}
use llmops_gateway.Providers.Resilient.{Streamed}
use llmops_gateway.Adapters.Http.{
  Client, HttpFailure, HttpLines, StreamOutcome, opened, refused, failure, raise_for_status,
}

-- `line[len(key):].strip()`
unfoldable pub value_of : String → String → String
unfolding lstrip rstrip
value_of key line = rstrip (lstrip (drop_text (text_length key) line))

-- `continue`, `break`, `yield` and an exception.
pub data Line : Type 0 where
  skip stop : Line
  emit : String → Line
  fail : Exn → Line

-- How a loop ended.
pub data Ending : Type 0 where
  ran_out broke : Ending
  raised : Exn → Ending

pub record Parsed : Type 0 where
  pub texts : List String
  pub ending : Ending

abbrev pub yielded : String → Parsed → Parsed
yielded s p = record p { texts = s ∷ p.texts }

abbrev pub after_line : Line → Parsed → Parsed
after_line skip rest = rest
after_line (emit s) rest = yielded s rest
after_line stop rest = record { texts = []; ending = broke }
after_line (fail e) rest = record { texts = []; ending = raised e }

unfoldable pub run_lines : {S : Type 0} → (S → String → S × Line) → S → List String → Parsed
run_lines step s [] = record { texts = []; ending = ran_out }
run_lines step s (line ∷ lines) =
    let (s', outcome) = step s line in after_line outcome (run_lines step s' lines)

-- The exception that ends the generator: that of the loop, or the one that cut the lines off
-- before the loop left them.
unfoldable pub ended_by : Ending → Option HttpFailure → Option Exn
unfolding failure
ended_by (raised e) cut_off = some e
ended_by broke cut_off = none
ended_by ran_out none = none
ended_by ran_out (some f) = some (failure f)

abbrev pub from_status : Result (Unit {0}) → Option Exn
from_status (ok _) = none
from_status (err e) = some e

module _ {W S : Type 0} (c : Client W) (step : ℕ → S → String → S × Line) (start : S) where
  -- The body of `async with`: the status, then the lines. A status that is not 200 and raises
  -- nothing is read on.
  unfoldable pub read_stream : HttpLines → Streamed
  unfolding run_lines ended_by raise_for_status
  read_stream r =
      let p = run_lines (step r.head.status_code) start r.lines in
      let read : Streamed = record { chunks = p.texts; ended = ended_by p.ending r.cut_off } in
      if r.head.status_code == 200 then read else elim (raise_for_status c r.head) [
        | err e ↦ record { chunks = []; ended = some e }
        | ok _ ↦ read
      ]

  unfoldable pub read_outcome : StreamOutcome → Streamed
  unfolding read_stream failure
  read_outcome (refused f) = record { chunks = []; ended = some (failure f) }
  read_outcome (opened r) = read_stream r
