-- ===== src/Layer/Tests.antt =====
-- src/layer.rs at concrete inputs.
use zmux_python.Prelude.{
  ℕ, ◌≡◌, refl, true, false, none, some, List, [], ◌∷◌, ◌++◌, arith, take, drop, length, raised,
  PyResult, ok, err,
}
use zmux_python.Layer.Stream
use zmux_python.Layer.Stream.{Carrier, wrap}
use zmux_python.Layer.Stream.Released.{Shuts, wrap-Shuts}
use zmux_python.Layer.Transform
use zmux_python.Layer.Transform.{
  Heap, Obj, other, Called, raises, call, before_release, awaited, taken, release_at,
}
use zmux_python.Layer.Transform.Release.{Releases, call-Releases}
use zmux_python.Layer.Channel.{queue, Bytes}
use zmux_python.Layer.Chan.{Reader, poll_read}
use zmux_python.Layer.Chan.Read.{Reads, poll_read-Reads, sent, read, reads, InOrder, reads-InOrder}
use zmux_python.Layer.Chan.Write
use zmux_python.Layer.Chan.Write.{
  Writer, End, write, close, permit, not_yet, gone, write_call, shutdown_call, calls, accepted,
  answers, calls_lem, Writes, write_lem,
}

-- Two messages are queued, the first of them empty, and a sender is left.
abbrev reader : Reader queue
reader = record { rx = ([] ∷ (1 ∷ 2 ∷ 3 ∷ []) ∷ [], true); buf = [] }

poll_read-Reads_example : Reads queue 2 reader (poll_read queue 3 2 reader)
poll_read-Reads_example = poll_read-Reads queue 3 2 reader (omega arith)

reads-InOrder_example :
    InOrder queue
      (read 2 ∷ sent (4 ∷ []) ∷ read 5 ∷ [])
      reader
      (reads queue (read 2 ∷ sent (4 ∷ []) ∷ read 5 ∷ []) reader)
reads-InOrder_example = reads-InOrder queue (read 2 ∷ sent (4 ∷ []) ∷ read 5 ∷ []) reader

abbrev writer : Writer
writer = record { tx = true; reserve = false; messages = [] }

abbrev some_calls : List Write.Call
some_calls =
    write_call not_yet gone (1 ∷ 2 ∷ [])
    ∷ write_call not_yet permit (1 ∷ 2 ∷ [])
    ∷ shutdown_call
    ∷ write_call permit not_yet (3 ∷ [])
    ∷ []

calls_lem_example :
    ((calls some_calls writer).1.messages ≡ (1 ∷ 2 ∷ []) ∷ [])
    × ((calls some_calls writer).0 ≡ answers true false some_calls)
calls_lem_example = calls_lem some_calls writer

-- A carrier whose reading half is what it will read, and whose writing half what was written.
abbrev carrier : Carrier
carrier = record {
  R = Bytes;
  W = Bytes;
  read_some = λ n r. (ok (take n r), drop n r);
  write_all = λ b w. (ok tt, w ++ b);
  flush = λ w. (ok tt, w);
  shutdown = λ w. (ok tt, w);
}

-- A layer that reads and then fails.
abbrev failing : Stream.Halves Bytes Bytes → PyResult (Unit {0}) × Stream.Halves Bytes Bytes
failing s = (err (raised "ValueError"), (Stream.read carrier 2 s).1)

failing_layer :
    Shuts carrier
      (Stream.reads 3 ∷ Stream.shuts ∷ [])
      (failing (record { r = some (1 ∷ 2 ∷ []); w = some [] }))
      (wrap carrier failing (1 ∷ 2 ∷ []) [])
failing_layer = wrap-Shuts carrier failing (1 ∷ 2 ∷ []) [] (Stream.reads 3 ∷ Stream.shuts ∷ [])

-- Objects before the call, and a function that raises and keeps the object.
abbrev objects : Heap ℕ
objects = record { cells = none ∷ some 3 ∷ []; dropped = [] }

abbrev keeps : ℕ → Heap ℕ → Called × Heap ℕ
keeps n h = (raises (raised "ValueError"), h)

abbrev no_coroutine : Heap ℕ → PyResult Obj × Heap ℕ
no_coroutine h = (ok other, h)

abbrev after_call : Heap ℕ
after_call = record { cells = none ∷ some 3 ∷ none ∷ []; dropped = 7 ∷ [] }

call-keeps : call keeps no_coroutine 7 objects ≡ (err (raised "ValueError"), after_call)
unfolding call before_release awaited taken Transform.release release_at
call-keeps = refl

call-Releases_example :
    Releases
      (length objects.cells)
      (before_release keeps no_coroutine 7 objects)
      (call keeps no_coroutine 7 objects)
call-Releases_example = call-Releases keeps no_coroutine 7 objects
