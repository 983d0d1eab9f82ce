-- ===== src/Stream.antt =====
-- src/jsonstream/jsonstream.cpp: what a stream writes to its device. The device's replies are
-- arguments: how many bytes it took, or none where it reports an error.
pub mod Written
pub mod Drained
pub mod Reading
mod Tests
use qtjsondb.Prelude.{
  ℕ, List, [], ◌∷◌, ◌++◌, Option, none, some, is_empty, if◌then◌else◌, take, drop,
}
use qtjsondb.Qt.Json.{QJsonObject}
use qtjsondb.Qt.Calls.{QtCalls}

-- The buffer, and the bytes that the device has taken.
pub record JsonStream : Type 0 where
  pub write_buffer : List ℕ
  pub taken : List ℕ

-- The call of mDevice->write with these bytes, and what is left behind them in the buffer. What
-- is left after an error differs between the callers.
unfoldable pub write_data : JsonStream → List ℕ → List ℕ → Option ℕ → JsonStream
write_data st bytes failed none = record st { write_buffer = failed }
write_data st bytes failed (some did_write) = record {
  write_buffer = drop did_write bytes;
  taken = st.taken ++ take did_write bytes;
}

-- deviceBytesWritten
unfoldable pub device_bytes_written : JsonStream → Option ℕ → JsonStream
unfolding write_data
device_bytes_written st reply =
    if is_empty st.write_buffer then st else write_data st st.write_buffer st.write_buffer reply

-- What happens to a stream: an object is sent, or the device reports that bytes were written.
pub data Event : Type 0 where
  sent : QJsonObject → Option ℕ → Event
  bytes_written : Option ℕ → Event

module _ (q : QtCalls) where
  -- send: after an error nothing is buffered.
  unfoldable pub send : JsonStream → QJsonObject → Option ℕ → JsonStream
  unfolding write_data
  send st object reply =
      let bytes = q.to_binary_data object in
      if is_empty st.write_buffer
      then write_data st bytes [] reply
      else record st { write_buffer = st.write_buffer ++ bytes }

  unfoldable pub on_event : JsonStream → Event → JsonStream
  on_event st (sent object reply) = send st object reply
  on_event st (bytes_written reply) = device_bytes_written st reply

  unfoldable pub run_events : JsonStream → List Event → JsonStream
  run_events st [] = st
  run_events st (e ∷ events) = run_events (on_event st e) events
