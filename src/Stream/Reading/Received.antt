-- ===== src/Stream/Reading/Received.antt =====
-- The objects that a stream receives are those that were sent, however their bytes are cut.
use qtjsondb.Prelude.{
  ℕ, zero, suc, ◌+◌, ◌<◌, ◌≤◌, ◌≡◌, refl, sym, ap, ◌∙◌, ◌==◌, ==_iff, true, List, [], ◌∷◌, ◌++◌,
  Option, none, some, length, length-append, append_assoc, append_nil, nil_of_append, cuts,
  take-append, drop-append, ltb, take, drop, not, map, arith, Bool-cases, inl, inr, if◌then◌else◌,
}
use qtjsondb.Qt.Json.{QJsonObject}
use qtjsondb.Qt.Calls.{QtCalls}
use qtjsondb.Stream.{JsonStream, Event, sent, bytes_written, run_events}
use qtjsondb.Stream.Written.{NoSendFails, sent_bytes, all_bytes-run_events}
use qtjsondb.Stream.Reading.{
  ReadStream, ReadRound, goes_on, breaks, read, header_size, header_of, tag_of, version_of, size_of,
  receive_document, end_round, read_round, read_documents, on_reply, device_ready_read,
}

-- Two ways to cut the same bytes: the first piece of one has that of the other in front, or is
-- shorter.
abbrev pub empty_stream : JsonStream
empty_stream = record { write_buffer = []; taken = [] }

abbrev pub joined : List (List ℕ) → List ℕ
joined [] = []
joined (c ∷ chunks) = c ++ joined chunks

abbrev pub new_stream : ReadStream
new_stream = record { read_buffer = []; received = [] }

abbrev pub sent_objects : List Event → List QJsonObject
sent_objects [] = []
sent_objects (sent o reply ∷ events) = o ∷ sent_objects events
sent_objects (bytes_written reply ∷ events) = sent_objects events

module _ (q : QtCalls) (tag : ℕ) (from_binary_data : List ℕ → Option QJsonObject) where
  -- What the code relies on for an object: its binary data have a header with the tag, the
  -- version and the size, and are read back also with bytes behind them, but not where they are cut.
  pub record IsBinary (o : QJsonObject) : Type 0 where
    pub longer : header_size < length (q.to_binary_data o)
    pub same_tag : tag_of (header_of (q.to_binary_data o)) ≡ tag
    pub same_version : version_of (header_of (q.to_binary_data o)) ≡ 1
    pub same_size : 8 + size_of (header_of (q.to_binary_data o)) ≡ length (q.to_binary_data o)
    pub whole : (more : List ℕ) → from_binary_data (q.to_binary_data o ++ more) ≡ some o
    pub part :
        (k : ℕ)
        → k < length (q.to_binary_data o)
        → from_binary_data (take k (q.to_binary_data o)) ≡ none

  abbrev pub AllBinary : List QJsonObject → Type 0
  AllBinary [] = Unit {0}
  AllBinary (o ∷ objects) = IsBinary o × AllBinary objects

  abbrev pub bytes_of : List QJsonObject → List ℕ
  bytes_of [] = []
  bytes_of (o ∷ objects) = q.to_binary_data o ++ bytes_of objects

  module _ (all : List QJsonObject) (rest : List ℕ) where
    -- The objects that are still to be received are in the buffer and the rest.
    record Remains (objects : List QJsonObject) (st : ReadStream) : Type 0 where
      binary : AllBinary objects
      split : st.received ++ objects ≡ all
      bytes : st.read_buffer ++ rest ≡ bytes_of objects

    abbrev Expects : ReadStream → Type 0
    Expects st = (objects : List QJsonObject) × Remains objects st

    -- Where no more bytes come, all has been received.
    abbrev Ended : ReadStream → Type 0
    Ended st = rest ≡ [] → (st.received ≡ all) × (st.read_buffer ≡ [])

    abbrev RoundExpects : ReadStream → ReadRound → Type 0
    RoundExpects st (goes_on st') = Expects st' × (length st'.read_buffer < length st.read_buffer)
    RoundExpects st (breaks st') = Expects st' × Ended st'

    none_Ended : (st : ReadStream) → Remains [] st → Ended st
    none_Ended st r e =
        (sym (append_nil st.received) ∙ r.split, nil_of_append st.read_buffer rest r.bytes)

    first_Ended :
        (o : QJsonObject) (objects : List QJsonObject) (st : ReadStream)
        → Remains (o ∷ objects) st
        → length st.read_buffer < length (q.to_binary_data o)
        → Ended st
    first_Ended o objects st r lt e = absurd (
        omega (
          arith,
          ap length r.bytes,
          ap length e,
          length-append {0} st.read_buffer rest,
          length-append {0} (q.to_binary_data o) (bytes_of objects),
        ))

    breaks_Expects :
        (objects : List QJsonObject) (st : ReadStream)
        → Remains objects st
        → length st.read_buffer ≤ header_size
        → RoundExpects st (breaks st)
    breaks_Expects [] st r h = (([], r), none_Ended st r)
    breaks_Expects (o ∷ objects) st r h =
        ((o ∷ objects, r), first_Ended o objects st r (omega (arith, r.binary.0.longer)))

    same_header :
        (o : QJsonObject) (objects : List QJsonObject) (st : ReadStream)
        → Remains (o ∷ objects) st
        → header_size < length st.read_buffer
        → header_of st.read_buffer ≡ header_of (q.to_binary_data o)
    same_header o objects st r h =
        sym (take-append 12 st.read_buffer rest (omega arith))
        ∙ ap (take 12) r.bytes
        ∙ take-append 12 (q.to_binary_data o) (bytes_of objects) (omega (arith, r.binary.0.longer))

    document_Expects :
        (o : QJsonObject) (objects : List QJsonObject) (st : ReadStream)
        → Remains (o ∷ objects) st
        → header_of st.read_buffer ≡ header_of (q.to_binary_data o)
        → RoundExpects st
            (receive_document tag from_binary_data st (from_binary_data st.read_buffer))
    document_Expects o objects st r e =
        let doc = q.to_binary_data o in
        let law = r.binary.0 in
        elim (cuts st.read_buffer rest doc (bytes_of objects) r.bytes) [
          | inl (m, (h, g)) ↦
              let size : 8 + size_of (header_of st.read_buffer) ≡ length doc =
                ap (λ header. 8 + size_of header) e ∙ law.same_size in
              let left : drop (8 + size_of (header_of st.read_buffer)) st.read_buffer ≡ m =
                ap (λ n. drop n st.read_buffer) size
                ∙ (ap (drop (length doc)) h ∙ drop-append doc m) in
              rw (ap from_binary_data h ∙ law.whole m) (
                (
                  objects,
                  record {
                    binary = r.binary.1;
                    split = append_assoc st.received (o ∷ []) objects ∙ r.split;
                    bytes = ap (λ b. b ++ rest) left ∙ g;
                  },
                ),
                omega (arith, ap length left, ap length h, length-append {0} doc m, law.longer),
              )
          | inr (h, lt) ↦
              rw (ap from_binary_data h ∙ law.part (length st.read_buffer) lt)
                ((o ∷ objects, r), first_Ended o objects st r lt)
        ]

    long_Expects :
        (objects : List QJsonObject) (st : ReadStream)
        → Remains objects st
        → header_size < length st.read_buffer
        → RoundExpects st (
            let header = header_of st.read_buffer in
            if not (tag_of header == tag)
            then breaks (record st { read_buffer = [] })
            else if not (version_of header == 1)
            then breaks (record st { read_buffer = [] })
            else receive_document tag from_binary_data st (from_binary_data st.read_buffer))
    long_Expects [] st r h =
        absurd (omega (arith, ap length (nil_of_append st.read_buffer rest r.bytes)))
    long_Expects (o ∷ objects) st r h =
        let e = same_header o objects st r h in
        let law = r.binary.0 in
        let is_tag : (tag_of (header_of st.read_buffer) == tag) ≡ true =
          (==_iff _ _).1 (ap tag_of e ∙ law.same_tag) in
        let is_version : (version_of (header_of st.read_buffer) == 1) ≡ true =
          (==_iff _ _).1 (ap version_of e ∙ law.same_version) in
        rw (is_tag, is_version) (document_Expects o objects st r e)

    round_Expects :
        (objects : List QJsonObject) (st : ReadStream)
        → Remains objects st
        → RoundExpects st (read_round tag from_binary_data st)
    unfolding read_round
    round_Expects objects st r = elim (Bool-cases (ltb header_size (length st.read_buffer))) [
      | inl h ↦ rw h (long_Expects objects st r (ground arith))
      | inr h ↦ rw h (breaks_Expects objects st r (ground arith))
    ]

    next_Expects :
        (fuel : ℕ) (st : ReadStream) (round : ReadRound)
        → length st.read_buffer < suc fuel
        → ((st' : ReadStream)
            → Expects st'
            → length st'.read_buffer < fuel
            → Expects (read_documents tag from_binary_data fuel st')
              × Ended (read_documents tag from_binary_data fuel st'))
        → RoundExpects st round
        → Expects (end_round tag from_binary_data (read_documents tag from_binary_data fuel) round)
          × Ended (end_round tag from_binary_data (read_documents tag from_binary_data fuel) round)
    next_Expects fuel st (goes_on st') h ih ex = ih st' ex.0 (omega (arith, ex.1))
    next_Expects fuel st (breaks st') h ih ex = ex

    documents_Expects :
        (fuel : ℕ) (st : ReadStream)
        → Expects st
        → length st.read_buffer < fuel
        → Expects (read_documents tag from_binary_data fuel st)
          × Ended (read_documents tag from_binary_data fuel st)
    unfolding read_documents
    documents_Expects zero st ex h = absurd (omega arith)
    documents_Expects (suc fuel) st (objects, r) h =
        next_Expects fuel st (read_round tag from_binary_data st) h (documents_Expects fuel)
          (round_Expects objects st r)

  replies_Received :
      (all : List QJsonObject) (chunks : List (List ℕ)) (st : ReadStream)
      → Expects all (joined chunks) st
      → Ended all (joined chunks) st
      → (let left = device_ready_read tag from_binary_data st (map read chunks) in
          (left.received ≡ all) × (left.read_buffer ≡ []))
  unfolding device_ready_read on_reply
  replies_Received all [] st ex ended = ended refl
  replies_Received all (c ∷ chunks) st (objects, r) ended =
      let buffer = st.read_buffer ++ c in
      let next =
        documents_Expects all (joined chunks) (suc (length buffer))
          (record { read_buffer = buffer; received = st.received })
          (
            objects,
            record {
              binary = r.binary;
              split = r.split;
              bytes = append_assoc st.read_buffer c (joined chunks) ∙ r.bytes;
            },
          )
          (omega arith) in
      replies_Received all chunks _ next.0 next.1

  no_objects :
      (objects : List QJsonObject) → AllBinary objects → bytes_of objects ≡ [] → objects ≡ []
  no_objects [] laws h = refl
  no_objects (o ∷ objects) laws h = absurd (
      omega
        (arith, ap length (nil_of_append (q.to_binary_data o) (bytes_of objects) h), laws.0.longer))

  chunks_Received :
      (objects : List QJsonObject) (chunks : List (List ℕ))
      → AllBinary objects
      → joined chunks ≡ bytes_of objects
      → (let left = device_ready_read tag from_binary_data new_stream (map read chunks) in
          (left.received ≡ objects) × (left.read_buffer ≡ []))
  chunks_Received objects chunks laws h =
      replies_Received objects chunks new_stream
        (objects, record { binary = laws; split = refl; bytes = h })
        (λ e. (sym (no_objects objects laws (sym h ∙ e)), refl))

  bytes_of-sent_objects :
      (events : List Event) → bytes_of (sent_objects events) ≡ sent_bytes q events
  bytes_of-sent_objects [] = refl
  bytes_of-sent_objects (sent o reply ∷ events) =
      ap (◌++◌ (q.to_binary_data o)) (bytes_of-sent_objects events)
  bytes_of-sent_objects (bytes_written reply ∷ events) = bytes_of-sent_objects events

  -- Let a stream send objects to a device that takes any number of its bytes at a time, let no
  -- write of an object fail, and let all of its buffer be written. If the binary data of these
  -- objects are read back as documented, then a stream that reads these bytes, in chunks of any
  -- lengths, receives the objects that were sent, in their order, and nothing is left in its
  -- buffer.
  pub received-sent :
      (events : List Event) (chunks : List (List ℕ))
      → NoSendFails events
      → AllBinary (sent_objects events)
      → (run_events q empty_stream events).write_buffer ≡ []
      → joined chunks ≡ (run_events q empty_stream events).taken
      → (let left = device_ready_read tag from_binary_data new_stream (map read chunks) in
          (left.received ≡ sent_objects events) × (left.read_buffer ≡ []))
  received-sent events chunks ok laws all_taken cut =
      let end = run_events q empty_stream events in
      chunks_Received (sent_objects events) chunks laws (
        cut
        ∙ sym (append_nil end.taken)
        ∙ ap (◌++◌ end.taken) (sym all_taken)
        ∙ all_bytes-run_events q empty_stream events ok
        ∙ sym (bytes_of-sent_objects events))
