-- ===== src/Handles/Tests.antt =====
-- The handles at concrete inputs.
use zmux_python.Prelude.{ℕ, false, none, some, List, [], ◌∷◌, ok}
use zmux_python.Handles.PipeIo.{negsuc, Cells, Use, with_write_overhead, add_pipe, start, use_pipe}
use zmux_python.Handles.PipeIo.Once.{Takes, use_pipe-Takes}
use zmux_python.Handles.Parts.{Halves, pair}
use zmux_python.Handles.Parts.Pair.{Pairs, pair-Pairs}

abbrev cells : Cells ℕ ℕ
cells = record { pipe = some 7; reservation = none }

abbrev overhead : Use ℕ ℕ ℕ ℕ
overhead = with_write_overhead (negsuc 0)

use_pipe-Takes_example : Takes overhead cells (use_pipe overhead cells)
use_pipe-Takes_example = use_pipe-Takes overhead cells

abbrev twice : List (Use ℕ ℕ ℕ ℕ)
twice = overhead ∷ add_pipe (ok 1) ∷ start (ok 2) ∷ []

abbrev stream : Halves ℕ ℕ
stream = record {
  send = record { busy = false; part = some 4 };
  recv = record { busy = false; part = some 8 };
}

pair-Pairs_example : Pairs some some stream (pair some some stream)
pair-Pairs_example = pair-Pairs some some stream
