-- ===== src/Stream/Tests.antt =====
-- src/jsonstream/jsonstream.cpp: two objects on a device that takes few bytes at a time.
mod Reading
use qtjsondb.Prelude.{◌≡◌, [], ◌∷◌, ◌++◌, List, none, some, ℕ, ◌≤◌, Option, length, arith}
use qtjsondb.Qt.Json.{no_fields}
use qtjsondb.Qt.Sample.{sample}
use qtjsondb.Stream.{
  JsonStream, Event, sent, bytes_written, run_events, on_event, send, device_bytes_written,
  write_data,
}
use qtjsondb.Stream.Drained.{takings, reports, taken-run_events}
use qtjsondb.Stream.Written.{all_bytes, sent_bytes, NoSendFails, all_bytes-run_events}

abbrev start : JsonStream
start = record { write_buffer = []; taken = [] }

abbrev events : List Event
events =
    sent no_fields (some 3)
    ∷ sent no_fields (some 0)
    ∷ bytes_written none
    ∷ bytes_written (some 2)
    ∷ []

no_failure : NoSendFails events
no_failure = tt

abbrev many : List (Option ℕ)
many = some 1 ∷ none ∷ some 1 ∷ some 5 ∷ []

enough : length (run_events sample start events).write_buffer ≤ takings many
unfolding run_events on_event send device_bytes_written write_data
enough = omega arith

taken-run_events_example :
    let after = run_events sample start (events ++ reports many) in
    (after.write_buffer ≡ []) × (after.taken ≡ all_bytes start ++ sent_bytes sample events)
taken-run_events_example = taken-run_events sample start events many tt enough
