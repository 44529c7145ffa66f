-- ===== src/Network/Protocol.antt =====
-- pueue_lib/src/network/protocol.rs, and its twin pueue_lib/src/network_blocking/protocol.rs with
-- the same steps. The log lines and the warning on large payloads are left out.
pub mod Sending
pub mod Receiving
pub mod RoundTrip
use pueue.Base.{
  ℕ, zero, suc, ◌-◌, Bool, Option, none, some, List, [], ◌∷◌, ◌++◌, length, is_empty, ltb, take,
  drop, if◌then◌else◌, ok, err, stuck, or_err,
}
use pueue.Base.Results.{◌>>=◌}
use pueue.Network.Socket.{
  Socket, Error, Received, connection, empty_payload, message_deserialization, unexpected_payload,
  message_serialization, io_error, raw_io_error, message_too_big,
}

abbrev pub packet_size : ℕ
packet_size = 1280

-- `chunks(size)`; the fuel is the length of the list.
unfoldable pub chunks {ℓ} : {A : Type ℓ} → ℕ → ℕ → List A → List (List A)
chunks zero size xs = []
chunks (suc fuel) size [] = []
chunks (suc fuel) size (x ∷ xs) = take size (x ∷ xs) ∷ chunks fuel size (drop size (x ∷ xs))

-- The length of the next buffer.
abbrev pub buffer_size : ℕ → ℕ
buffer_size remaining_bytes =
    if ltb remaining_bytes packet_size then remaining_bytes else packet_size

-- A message size of at most `max_size`, where there is one.
abbrev pub exceeds : ℕ → Option ℕ → Bool
exceeds message_size none = Bool.false
exceeds message_size (some max_size) = ltb max_size message_size

abbrev pub limit_or : Option ℕ → ℕ
limit_or none = 0
limit_or (some max_size) = max_size

module _ (k : Socket) where
  open k use {Stream, read, read_exact, write_all, flush, write_u64, read_u64}

  unfoldable pub write_chunks : List (List ℕ) → Stream → Received Stream
  write_chunks [] s = ok s
  write_chunks (chunk ∷ rest) s = do
    s' ← or_err (io_error "sending payload chunk") (write_all chunk s)
    write_chunks rest s'

  unfoldable pub send_bytes : List ℕ → Stream → Received Stream
  unfolding chunks write_chunks
  send_bytes payload s = do
    headed ←
        or_err (io_error "sending request size header") (write_all (write_u64 (length payload)) s)
    written ← write_chunks (chunks (length payload) packet_size payload) headed
    or_err raw_io_error (flush written)

  -- A round of the loop reads a byte at least.
  unfoldable pub receive_chunk : ℕ → List ℕ → Stream → Received (List ℕ × Stream)
  receive_chunk message_size payload_bytes s = do
    (chunk, s') ←
        or_err (io_error "reading next chunk")
          (read (buffer_size (message_size - length payload_bytes)) s)
    if is_empty chunk
        then err (connection "Connection went away while receiving payload.")
        else ok (payload_bytes ++ chunk, s')

  -- `while payload_bytes.len() < message_size`.
  unfoldable pub receive_chunks : ℕ → ℕ → List ℕ → Stream → Received (List ℕ × Stream)
  unfolding receive_chunk
  receive_chunks zero message_size payload_bytes s =
      if ltb (length payload_bytes) message_size then stuck else ok (payload_bytes, s)
  receive_chunks (suc fuel) message_size payload_bytes s =
      let next : Received (List ℕ × Stream) = (do
        (payload_bytes', s') ← receive_chunk message_size payload_bytes s
        receive_chunks fuel message_size payload_bytes' s') in
      if ltb (length payload_bytes) message_size then next else ok (payload_bytes, s)

  unfoldable pub receive_bytes_with_max_size : Option ℕ → Stream → Received (List ℕ × Stream)
  unfolding receive_chunks
  receive_bytes_with_max_size max_size s = do
    (header, s') ← or_err (io_error "reading request size header") (read_exact 8 s)
    let message_size = read_u64 header
    if exceeds message_size max_size
        then err (message_too_big message_size (limit_or max_size))
        else receive_chunks message_size message_size [] s'

  unfoldable pub receive_bytes : Stream → Received (List ℕ × Stream)
  unfolding receive_bytes_with_max_size
  receive_bytes s = receive_bytes_with_max_size none s

  -- `send_message` and `receive_message`, for what serialises and reads a message: `into_writer` and
  -- `from_reader`, and whether some bytes are a value of any kind.
  module _ {M : Type 0} (into_writer : M → Option (List ℕ)) where
    unfoldable pub send_message : M → Stream → Received Stream
    unfolding send_bytes
    send_message message s = do
      payload ← or_err message_serialization (into_writer message)
      send_bytes payload s

  module _ {M : Type 0} (from_reader : List ℕ → Option M) (is_value : List ℕ → Bool) where
    abbrev pub decode_error : List ℕ → Error
    decode_error payload_bytes =
        if is_value payload_bytes then unexpected_payload else message_deserialization

    unfoldable pub receive_message : Stream → Received (M × Stream)
    unfolding receive_bytes
    receive_message s = do
      (payload_bytes, s') ← receive_bytes s
      let decoded : Received (M × Stream) = (do
        message ← or_err (decode_error payload_bytes) (from_reader payload_bytes)
        ok (message, s'))
      if is_empty payload_bytes then err empty_payload else decoded
