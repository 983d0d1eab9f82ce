-- ===== src/Stream/Reading.antt =====
-- src/jsonstream/jsonstream.cpp: deviceReadyRead, on a machine that is little-endian. The device's
-- replies are arguments, and so are Qt's fromBinaryData, with none for a document that is empty,
-- and BinaryFormatTag.
pub mod Received
use qtjsondb.Prelude.{
  ℕ, zero, suc, ◌+◌, ◌*◌, ◌==◌, Bool, ◌&&◌, List, [], ◌∷◌, ◌++◌, Option, none, some, length, ltb,
  take, drop, not, if◌then◌else◌,
}
use qtjsondb.Qt.Json.{QJsonObject}

-- The buffer, and the objects that receive was called with.
pub record ReadStream : Type 0 where
  pub read_buffer : List ℕ
  pub received : List QJsonObject

-- An unsigned int at the front of some bytes.
unfoldable pub le32 : List ℕ → ℕ
le32 (a ∷ b ∷ c ∷ d ∷ bytes) = a + 256 * (b + 256 * (c + 256 * d))
le32 _ = 0

-- sizeof(JsonHeader)
abbrev pub header_size : ℕ
header_size = 12

-- The header, and its members.
abbrev pub header_of : List ℕ → List ℕ
header_of buffer = take 12 buffer

abbrev pub tag_of : List ℕ → ℕ
tag_of header = le32 header

abbrev pub version_of : List ℕ → ℕ
version_of header = le32 (drop 4 header)

abbrev pub size_of : List ℕ → ℕ
size_of header = le32 (drop 8 header)

-- What a round of a loop does: it goes on, or breaks; both with the state.
pub data ReadRound : Type 0 where
  goes_on breaks : ReadStream → ReadRound

-- A reply of the device to a read of all the bytes that are available: what stands behind the
-- buffer afterwards, as the buffer is made longer before.
pub data Reply : Type 0 where
  read failed : List ℕ → Reply

module _ (tag : ℕ) (from_binary_data : List ℕ → Option QJsonObject) where
  abbrev pub receive_document : ReadStream → Option QJsonObject → ReadRound
  receive_document st none = breaks st
  receive_document st (some object) = goes_on (record {
    read_buffer = drop (8 + size_of (header_of st.read_buffer)) st.read_buffer;
    received = st.received ++ object ∷ [];
  })

  -- A round of the loop over the documents in the buffer.
  unfoldable pub read_round : ReadStream → ReadRound
  read_round st =
      let header = header_of st.read_buffer in
      if not (ltb header_size (length st.read_buffer))
      then breaks st
      else if not (tag_of header == tag)
      then breaks (record st { read_buffer = [] })
      else if not (version_of header == 1)
      then breaks (record st { read_buffer = [] })
      else receive_document st (from_binary_data st.read_buffer)

  abbrev pub end_round : (ReadStream → ReadStream) → ReadRound → ReadStream
  end_round loop (goes_on st) = loop st
  end_round loop (breaks st) = st

  unfoldable pub read_documents : ℕ → ReadStream → ReadStream
  read_documents zero st = st
  read_documents (suc fuel) st = end_round (read_documents fuel) (read_round st)

  -- Each round that goes on takes a byte.
  unfoldable pub on_reply : ReadStream → Reply → ReadStream
  unfolding read_documents read_round
  on_reply st (read bytes) =
      let buffer = st.read_buffer ++ bytes in
      read_documents (suc (length buffer)) (record st { read_buffer = buffer })
  on_reply st (failed bytes) = record st { read_buffer = st.read_buffer ++ bytes }

  -- deviceReadyRead, with a reply for each round until the device is at its end; and, as the state
  -- is all that a call leaves behind, several calls too.
  unfoldable pub device_ready_read : ReadStream → List Reply → ReadStream
  unfolding on_reply
  device_ready_read st [] = st
  device_ready_read st (r ∷ replies) = device_ready_read (on_reply st r) replies
