-- ===== src/Stream/Written.antt =====
-- The bytes of a stream reach the device in order, however many it takes at a time.
use qtjsondb.Prelude.{
  ℕ, ◌≡◌, refl, sym, ap, ◌∙◌, List, [], ◌∷◌, ◌++◌, Option, none, some, take, drop, append_assoc,
  append_nil, take-drop,
}
use qtjsondb.Qt.Json.{QJsonObject}
use qtjsondb.Qt.Calls.{QtCalls}
use qtjsondb.Stream.{
  JsonStream, Event, sent, bytes_written, write_data, send, device_bytes_written, on_event,
  run_events,
}

-- What the device has taken, and what waits behind it.
abbrev pub all_bytes : JsonStream → List ℕ
all_bytes st = st.taken ++ st.write_buffer

all_bytes-write_data :
    (st : JsonStream) (bytes failed : List ℕ) (n : ℕ)
    → all_bytes (write_data st bytes failed (some n)) ≡ st.taken ++ bytes
unfolding write_data
all_bytes-write_data st bytes failed n =
    append_assoc st.taken (take n bytes) (drop n bytes) ∙ ap (◌++◌ st.taken) (take-drop n bytes)

abbrev stream : List ℕ → List ℕ → JsonStream
stream buffer taken = record { write_buffer = buffer; taken = taken }

all_bytes-device_bytes_written :
    (buffer taken : List ℕ) (reply : Option ℕ)
    → all_bytes (device_bytes_written (stream buffer taken) reply) ≡ taken ++ buffer
unfolding device_bytes_written
all_bytes-device_bytes_written [] taken reply = refl
all_bytes-device_bytes_written (b ∷ bs) taken none = unfold write_data in refl
all_bytes-device_bytes_written (b ∷ bs) taken (some n) =
    all_bytes-write_data (stream (b ∷ bs) taken) (b ∷ bs) (b ∷ bs) n

-- No error is reported for the write of a sent object.
abbrev pub NoSendFails : List Event → Type 0
NoSendFails [] = Unit
NoSendFails (sent o (some n) ∷ events) = NoSendFails events
NoSendFails (sent o none ∷ events) = ⊥
NoSendFails (bytes_written reply ∷ events) = NoSendFails events

module _ (q : QtCalls) where
  all_bytes-send :
      (buffer taken : List ℕ) (o : QJsonObject) (n : ℕ)
      → all_bytes (send q (stream buffer taken) o (some n))
        ≡ (taken ++ buffer) ++ q.to_binary_data o
  unfolding send
  all_bytes-send [] taken o n =
      all_bytes-write_data (stream [] taken) (q.to_binary_data o) [] n
      ∙ ap (λ (xs : List ℕ). xs ++ q.to_binary_data o) (sym (append_nil taken))
  all_bytes-send (b ∷ bs) taken o n = sym (append_assoc taken (b ∷ bs) (q.to_binary_data o))

  -- The bytes of the objects that were sent.
  abbrev pub sent_bytes : List Event → List ℕ
  sent_bytes [] = []
  sent_bytes (sent o reply ∷ events) = q.to_binary_data o ++ sent_bytes events
  sent_bytes (bytes_written reply ∷ events) = sent_bytes events

  -- However objects are sent and written bytes reported, and however many bytes the device
  -- takes at a time, if no write of a sent object fails then what the device has taken,
  -- followed by the buffer, is what it was, followed by the bytes of the objects in the order
  -- in which they were sent.
  pub all_bytes-run_events :
      (st : JsonStream) (events : List Event)
      → NoSendFails events
      → all_bytes (run_events q st events) ≡ all_bytes st ++ sent_bytes events
  unfolding run_events on_event
  all_bytes-run_events st [] h = sym (append_nil (all_bytes st))
  all_bytes-run_events st (sent o none ∷ events) h = absurd h
  all_bytes-run_events st (sent o (some n) ∷ events) h =
      all_bytes-run_events (send q st o (some n)) events h
      ∙ ap (λ (xs : List ℕ). xs ++ sent_bytes events) (all_bytes-send st.write_buffer st.taken o n)
      ∙ append_assoc (all_bytes st) (q.to_binary_data o) (sent_bytes events)
  all_bytes-run_events st (bytes_written reply ∷ events) h =
      all_bytes-run_events (device_bytes_written st reply) events h
      ∙ ap (λ (xs : List ℕ). xs ++ sent_bytes events)
          (all_bytes-device_bytes_written st.write_buffer st.taken reply)
