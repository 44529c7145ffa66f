-- ===== src/Network/Protocol/RoundTrip.antt =====
-- What is received is what was sent (pueue_lib/src/network/protocol.rs).
use pueue.Base.{
  ℕ, ◌^◌, ◌≤◌, ◌<◌, ◌≡◌, ◌≢◌, refl, sym, ap, ◌∙◌, Bool, true, false, Option, none, some, List, [],
  ◌++◌, length, length-append, append_inj, append_assoc, is_empty, inl, inr, ltb, Bool-cases,
  Option-cases, arith, ok, err, stuck, or_err, >>=-eq-ok, or_err-eq-ok, if◌then◌else◌,
}
use pueue.Network.Socket.{Socket, io_error, message_too_big}
use pueue.Network.Protocol.{
  exceeds, limit_or, receive_chunks, receive_bytes_with_max_size, receive_bytes, send_bytes,
  send_message, receive_message,
}
use pueue.Network.Protocol.Sending.{sent-send_bytes, send_bytes-IsUp}
use pueue.Network.Protocol.Receiving.{
  gone, receive_chunks-IsRead, receive_chunks-ne-stuck, receive_chunks-IsUp,
}

module _ (k : Socket) where
  open k use {
    Stream, pending, sent, IsUp, read_exact, write_u64, read_u64, read_exact_some, read_exact_up,
    length-write_u64, read_u64-write_u64,
  }

  -- After the bytes sent before, the receiver is to read what the sender sent since, and the rest.
  abbrev pub Carries : Stream → Stream → List ℕ → Stream → Type 0
  Carries s s' rest r = sent s' ++ rest ≡ sent s ++ pending r

  -- The bytes that `send_bytes` puts before the receiver.
  pending_of-send_bytes :
      (payload rest : List ℕ) (s r : Stream) {s' : Stream}
      → send_bytes k payload s ≡ ok s'
      → Carries s s' rest r
      → pending r ≡ write_u64 (length payload) ++ (payload ++ rest)
  pending_of-send_bytes payload rest s r {s'} e carries =
      let sent_since = ap (λ xs. xs ++ rest) (sent-send_bytes k payload s e) in
      let regroup = append_assoc (sent s) (write_u64 (length payload) ++ payload) rest in
      let inner = append_assoc (write_u64 (length payload)) payload rest in
      let whole = sym carries ∙ sent_since ∙ regroup in
      (append_inj (sent s) (sent s) _ _ refl whole).1 ∙ inner

  receive_announced :
      (payload rest : List ℕ) (s r : Stream) {s' : Stream} (max_size : Option ℕ)
      → send_bytes k payload s ≡ ok s'
      → Carries s s' rest r
      → IsUp r
      → length payload < 2 ^ 64
      → (r' : Stream) × (pending r' ≡ payload ++ rest)
        × IsUp r'
        × (receive_bytes_with_max_size k max_size r ≡ (
            if exceeds (length payload) max_size
            then err (message_too_big (length payload) (limit_or max_size))
            else receive_chunks k (length payload) (length payload) [] r'))
  unfolding receive_bytes_with_max_size
  receive_announced payload rest s r max_size e carries up fits =
      let front = pending_of-send_bytes payload rest s r e carries in
      let header_length = length-write_u64 (length payload) in
      let lengths = ap length front in
      let l = length-append (write_u64 (length payload)) (payload ++ rest) in
      let (c, r', e', up') = read_exact_up 8 r up (omega arith) in
      let (split, eight) = read_exact_some 8 r e' in
      let (same, after) =
        append_inj c (write_u64 (length payload)) _ _ (omega arith) (sym split ∙ front) in
      let size : read_u64 c ≡ length payload =
        ap read_u64 same ∙ read_u64-write_u64 (length payload) fits in
      (r', after, up', rw (e', size))

  -- A payload longer than the limit is refused.
  pub receive_bytes_with_max_size-too_big :
      (payload rest : List ℕ) (s r : Stream) {s' : Stream} (max_size : ℕ)
      → send_bytes k payload s ≡ ok s'
      → Carries s s' rest r
      → IsUp r
      → length payload < 2 ^ 64
      → max_size < length payload
      → receive_bytes_with_max_size k (some max_size) r
        ≡ err (message_too_big (length payload) max_size)
  receive_bytes_with_max_size-too_big payload rest s r max_size e carries up fits big =
      let (r', after, up', run) =
        receive_announced payload rest s r (some max_size) e carries up fits in
      let exceeded : ltb max_size (length payload) ≡ true = ground arith in rw exceeded at run

  receive_within :
      (payload rest : List ℕ) (s r : Stream) {s' : Stream} (max_size : Option ℕ)
      → send_bytes k payload s ≡ ok s'
      → Carries s s' rest r
      → IsUp r
      → length payload < 2 ^ 64
      → exceeds (length payload) max_size ≡ false
      → (r' : Stream) × (receive_bytes_with_max_size k max_size r ≡ ok (payload, r'))
        × (pending r' ≡ rest)
        × IsUp r'
  receive_within payload rest s r max_size e carries up fits within =
      let (headed, after, up', run) =
        receive_announced payload rest s r max_size e carries up fits in
      let enough = ap length after in
      let l = length-append payload rest in
      elim (receive_chunks-IsUp k (length payload) (length payload) [] headed up' (omega arith)
        (omega arith)) [
          | inr (e', short) ↦ absurd (omega arith)
          | inl ((got, r'), e', up'') ↦
              let (split, full) =
                receive_chunks-IsRead k (length payload) (length payload) [] headed (omega arith)
                  e' in
              let (same, behind) = append_inj got payload _ _ full (sym split ∙ after) in
              (r', run ∙ rw within (e' ∙ ap (λ got. ok (got, r')) same), behind, up'')
        ]

  -- Messages round trip.
  module _ {M : Type 0} (into_writer : M → Option (List ℕ)) (from_reader : List ℕ → Option M)
      (is_value : List ℕ → Bool) where
    -- What is sent.
    pub send_message-IsUp :
        (message : M) (payload : List ℕ) (s : Stream)
        → into_writer message ≡ some payload
        → IsUp s
        → (s' : Stream) × (send_message k into_writer message s ≡ ok s')
          × IsUp s'
          × (sent s' ≡ sent s ++ (write_u64 (length payload) ++ payload))
    unfolding send_message
    send_message-IsUp message payload s written up =
        let (s', e, up') = send_bytes-IsUp k payload s up in
        (s', rw (written, e), up', sent-send_bytes k payload s e)

    -- If a message that is read back from its non-empty payload is sent, and a receiver whose
    -- connection is up finds what was sent since and the bytes of later messages, in whatever
    -- pieces they come, then it receives the message and leaves the later bytes.
    pub receive_message-send_message :
        (message : M) (payload rest : List ℕ) (s s' r : Stream)
        → into_writer message ≡ some payload
        → from_reader payload ≡ some message
        → is_empty payload ≡ false
        → length payload < 2 ^ 64
        → send_message k into_writer message s ≡ ok s'
        → Carries s s' rest r
        → IsUp r
        → (r' : Stream) × (receive_message k from_reader is_value r ≡ ok (message, r'))
          × (pending r' ≡ rest)
          × IsUp r'
    unfolding send_message receive_message receive_bytes
    receive_message-send_message message payload rest s s' r written decoded some_bytes fits e
          carries up =
        let sent_payload : send_bytes k payload s ≡ ok s' = rw written at e in
        let (r', e', behind, up') =
          receive_within payload rest s r none sent_payload carries up fits refl in
        (r', rw (e', some_bytes, decoded), behind, up')

  -- A payload that is received under a limit is no longer than the limit and as long as the eight
  -- bytes before it announce, and exactly these eight bytes and the payload were taken from the
  -- stream.
  pub receive_bytes_with_max_size-reads :
      (max_size : ℕ) (s t : Stream) (payload : List ℕ)
      → receive_bytes_with_max_size k (some max_size) s ≡ ok (payload, t)
      → (length payload ≤ max_size)
        × ((header : List ℕ) × (length header ≡ 8)
            × (read_u64 header ≡ length payload)
            × (pending s ≡ header ++ (payload ++ pending t)))
  unfolding receive_bytes_with_max_size
  receive_bytes_with_max_size-reads max_size s t payload e =
      let ((header, s'), e1, e2) =
        >>=-eq-ok (or_err (io_error "reading request size header") (read_exact 8 s)) _ e in
      let (split, eight) = read_exact_some 8 s (or_err-eq-ok _ _ e1) in
      elim (Bool-cases (ltb max_size (read_u64 header))) [
        | inl big ↦ absurd (ground (arith, e2, big))
        | inr small ↦
            let run = rw small at e2 in
            let (behind, full) =
              receive_chunks-IsRead k (read_u64 header) (read_u64 header) [] s' (omega arith) run in
            (ground arith, (header, eight, sym full, split ∙ ap (λ xs. header ++ xs) behind))
      ]

  -- The receipt of a payload never runs out of its fuel, which is the announced size: each read
  -- brings a byte at least or ends the loop.
  pub receive_bytes_with_max_size-ne-stuck :
      (max_size : Option ℕ) (s : Stream) → receive_bytes_with_max_size k max_size s ≢ stuck
  unfolding receive_bytes_with_max_size
  receive_bytes_with_max_size-ne-stuck max_size s = elim (Option-cases (read_exact 8 s)) [
    | inl e ↦ rw e (ground arith)
    | inr ((header, s'), e) ↦ elim (Bool-cases (exceeds (read_u64 header) max_size)) [
      | inl big ↦ rw (e, big) (ground arith)
      | inr small ↦
          rw (e, small)
            (receive_chunks-ne-stuck k (read_u64 header) (read_u64 header) [] s' (omega arith))
    ]
  ]

  -- If a connection is up, its first eight bytes announce a size within the limit, and fewer bytes
  -- follow, then the receipt fails with the error that the connection went away.
  pub receive_bytes_with_max_size-gone :
      (max_size : Option ℕ) (s : Stream) (header sent_bytes : List ℕ)
      → IsUp s
      → pending s ≡ header ++ sent_bytes
      → length header ≡ 8
      → length sent_bytes < read_u64 header
      → exceeds (read_u64 header) max_size ≡ false
      → receive_bytes_with_max_size k max_size s ≡ err gone
  unfolding receive_bytes_with_max_size
  receive_bytes_with_max_size-gone max_size s header sent_bytes up front eight short small =
      let lengths = ap length front in
      let l = length-append header sent_bytes in
      let (c, s', e, up') = read_exact_up 8 s up (omega arith) in
      let (split, eight') = read_exact_some 8 s e in
      let (same, after) = append_inj c header _ _ (omega arith) (sym split ∙ front) in
      let few = ap length after in
      rw (e, same, small)
        (elim (receive_chunks-IsUp k (read_u64 header) (read_u64 header) [] s' up' (omega arith)
          (omega arith)) [
            | inr (e', missing) ↦ e'
            | inl ((got, t), e', up'') ↦
                let (behind, full) =
                  receive_chunks-IsRead k (read_u64 header) (read_u64 header) [] s' (omega arith)
                    e' in
                let l2 = length-append got (pending t) in absurd (omega (arith, ap length behind))
          ])
