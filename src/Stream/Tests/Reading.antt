-- ===== src/Stream/Tests/Reading.antt =====
-- src/jsonstream/jsonstream.cpp: two objects that a stream sends and another receives, with small
-- binary data in place of Qt's.
use qtjsondb.Prelude.{
  ℕ, ◌≡◌, refl, ap, ◌==◌, List, [], ◌∷◌, ◌++◌, Option, none, some, take, drop, drop_short, map,
  arith, if◌then◌else◌,
}
use qtjsondb.Qt.Text.{codes}
use qtjsondb.Qt.Json.{QJsonObject, no_fields, field, str}
use qtjsondb.Qt.Calls.{QtCalls}
use qtjsondb.Qt.Sample.{sample}
use qtjsondb.Stream.{
  Event, sent, bytes_written, write_data, send, device_bytes_written, on_event, run_events,
}
use qtjsondb.Stream.Reading.{le32, read, device_ready_read}
use qtjsondb.Stream.Reading.Received.{
  IsBinary, joined, sent_objects, new_stream, empty_stream, received-sent,
}

abbrev object : QJsonObject
object = field (codes "a") (str (codes "b")) no_fields

abbrev document : ℕ → List ℕ
document kind =
    7 ∷ 0 ∷ 0 ∷ 0 ∷ 1 ∷ 0 ∷ 0 ∷ 0 ∷ 12 ∷ 0 ∷ 0 ∷ 0 ∷ 0 ∷ 0 ∷ 0 ∷ 0 ∷ 0 ∷ 0 ∷ 0 ∷ kind ∷ []

abbrev to_binary : QJsonObject → List ℕ
to_binary no_fields = document 0
to_binary (field name v more) = document 1

abbrev object_of : List ℕ → Option QJsonObject
object_of [] = none
object_of (kind ∷ more) = some (if kind == 0 then no_fields else object)

abbrev from_binary : List ℕ → Option QJsonObject
from_binary bytes = object_of (drop 19 bytes)

abbrev calls : QtCalls
calls = record sample { to_binary_data = to_binary }

empty-IsBinary : IsBinary calls 7 from_binary no_fields
unfolding le32
empty-IsBinary = record {
  longer = omega arith;
  same_tag = refl;
  same_version = refl;
  same_size = refl;
  whole = λ more. refl;
  part = λ k h. ap object_of (drop_short 19 k (document 0) (omega arith));
}

object-IsBinary : IsBinary calls 7 from_binary object
unfolding le32
object-IsBinary = record {
  longer = omega arith;
  same_tag = refl;
  same_version = refl;
  same_size = refl;
  whole = λ more. refl;
  part = λ k h. ap object_of (drop_short 19 k (document 1) (omega arith));
}

abbrev events : List Event
events =
    sent no_fields (some 3)
    ∷ sent object (some 0)
    ∷ bytes_written none
    ∷ bytes_written (some 37)
    ∷ []

abbrev chunks : List (List ℕ)
chunks =
    take 15 (document 0) ∷ (drop 15 (document 0) ++ take 2 (document 1)) ∷ drop 2 (document 1) ∷ []

all_taken : (run_events calls empty_stream events).write_buffer ≡ []
unfolding run_events on_event send write_data device_bytes_written
all_taken = refl

cut : joined chunks ≡ (run_events calls empty_stream events).taken
unfolding run_events on_event send write_data device_bytes_written
cut = refl

received-sent_example :
    (let left = device_ready_read 7 from_binary new_stream (map read chunks) in
      (left.received ≡ sent_objects events) × (left.read_buffer ≡ []))
received-sent_example =
    received-sent calls 7 from_binary events chunks tt (empty-IsBinary, (object-IsBinary, tt))
      all_taken cut
