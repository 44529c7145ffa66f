-- ===== src/Network/Protocol/Receiving.antt =====
-- What `receive_bytes_with_max_size` of pueue_lib/src/network/protocol.rs reads.
use pueue.Base.{
  ℕ, zero, suc, ◌+◌, ◌-◌, ◌≤◌, ◌<◌, ◌≡◌, ◌≢◌, refl, sym, ap, ◌∙◌, true, false, List, [], ◌∷◌, ◌++◌,
  length, length-append, is_empty, append_assoc, inl, inr, ltb, Bool-cases, Option-cases, arith, ok,
  err, stuck, or_err, >>=-eq-ok, or_err-eq-ok, Result-cases, ok_injective, subst, ◌⊎◌,
}
use pueue.Network.Socket.{Socket, Error, connection, io_error}
use pueue.Network.Protocol.{buffer_size, receive_chunk, receive_chunks}

is_empty-eq-nil : (xs : List ℕ) → is_empty xs ≡ true → xs ≡ []
is_empty-eq-nil [] e = refl
is_empty-eq-nil (x ∷ xs) e = cc

length_pos : (xs : List ℕ) → is_empty xs ≡ false → 0 < length xs
length_pos [] e = cc
length_pos (x ∷ xs) e = omega arith

abbrev pub gone : Error
gone = connection "Connection went away while receiving payload."

module _ (k : Socket) where
  open k use {
    Stream, pending, IsUp, read, read_exact, read_u64, read_some, read_up, read_exact_some,
    read_exact_up,
  }

  -- The bytes that are still to be read, behind those that were.
  abbrev Splits : List ℕ → Stream → List ℕ → Stream → Type 0
  Splits before s after t = before ++ pending s ≡ after ++ pending t

  abbrev IsRead : ℕ → List ℕ → Stream → List ℕ × Stream → Type 0
  IsRead size got s r = Splits got s r.0 r.1 × (length r.0 ≡ size)

  receive_chunk-IsRead :
      (size : ℕ) (got : List ℕ) (s : Stream) {r : List ℕ × Stream}
      → length got < size
      → receive_chunk k size got s ≡ ok r
      → Splits got s r.0 r.1 × (length got < length r.0) × (length r.0 ≤ size)
  unfolding receive_chunk
  receive_chunk-IsRead size got s {r} h e =
      let ((chunk, s'), e1, e2) =
        >>=-eq-ok
          (or_err (io_error "reading next chunk") (read (buffer_size (size - length got)) s)) _ e in
      let (front, bound) = read_some (buffer_size (size - length got)) s (or_err-eq-ok _ _ e1) in
      elim (Bool-cases (is_empty chunk)) [
        | inl none_left ↦ absurd (ground (arith, e2, none_left))
        | inr more ↦
            let here : (got ++ chunk, s') ≡ r = ok_injective (rw more at e2) in
            let grown = length-append got chunk in
            let positive = length_pos chunk more in
            subst (λ r. Splits got s r.0 r.1 × (length got < length r.0) × (length r.0 ≤ size)) here
              (
                ap (λ xs. got ++ xs) front ∙ sym (append_assoc got chunk (pending s')),
                omega arith,
                ground arith,
              )
      ]

  receive_chunk-ne-stuck :
      (size : ℕ) (got : List ℕ) (s : Stream) → receive_chunk k size got s ≢ stuck
  unfolding receive_chunk
  receive_chunk-ne-stuck size got s =
      elim (Option-cases (read (buffer_size (size - length got)) s)) [
        | inl e ↦ rw e (ground arith)
        | inr (r, e) ↦ rw e (ground arith)
      ]

  -- On a connection that is up a round fails only where no byte is left.
  receive_chunk-IsUp :
      (size : ℕ) (got : List ℕ) (s : Stream)
      → IsUp s
      → length got < size
      → ((r : List ℕ × Stream) × (receive_chunk k size got s ≡ ok r) × IsUp r.1)
        ⊎ ((receive_chunk k size got s ≡ err gone) × (pending s ≡ []))
  unfolding receive_chunk
  receive_chunk-IsUp size got s up h =
      let (c, t, e, up', some_came) = read_up (buffer_size (size - length got)) s up in
      elim (Bool-cases (is_empty c)) [
        | inr more ↦ inl ((got ++ c, t), rw (e, more), up')
        | inl none_came ↦
            let no_byte : length c ≡ 0 = ap length (is_empty-eq-nil c none_came) in
            inr (
              rw (e, none_came),
              elim (Bool-cases (is_empty (pending s))) [
                | inl end ↦ is_empty-eq-nil (pending s) end
                | inr left ↦
                    let some_left = length_pos (pending s) left in
                    let wanted : 0 < buffer_size (size - length got) = ground arith in
                    absurd (omega (arith, some_came wanted some_left))
              ],
            )
      ]

  -- What was read is what stands first in the stream, and no more than the size.
  pub receive_chunks-IsRead :
      (fuel size : ℕ) (got : List ℕ) (s : Stream) {r : List ℕ × Stream}
      → length got ≤ size
      → receive_chunks k fuel size got s ≡ ok r
      → Splits got s r.0 r.1 × (length r.0 ≡ size)
  unfolding receive_chunks
  receive_chunks-IsRead zero size got s h e = ground arith
  receive_chunks-IsRead (suc fuel) size got s {r} h e = elim (Bool-cases (ltb (length got) size)) [
    | inr full ↦ ground arith
    | inl more ↦
        let ((got', s'), e1, e2) = >>=-eq-ok (receive_chunk k size got s) _ (rw more at e) in
        let (front, grown, bound) = receive_chunk-IsRead size got s (ground arith) e1 in
        let (rest, full) = receive_chunks-IsRead fuel size got' s' bound e2 in (front ∙ rest, full)
  ]

  pub receive_chunks-ne-stuck :
      (fuel size : ℕ) (got : List ℕ) (s : Stream)
      → size ≤ length got + fuel
      → receive_chunks k fuel size got s ≢ stuck
  unfolding receive_chunks
  receive_chunks-ne-stuck zero size got s h = ground arith
  receive_chunks-ne-stuck (suc fuel) size got s h = elim (Bool-cases (ltb (length got) size)) [
    | inr full ↦ ground arith
    | inl more ↦ elim (Result-cases (receive_chunk k size got s)) [
      | inl ((got', s'), e) ↦
          let (front, grown, bound) = receive_chunk-IsRead size got s (ground arith) e in
          rw more (rw e (receive_chunks-ne-stuck fuel size got' s' (omega arith)))
      | inr (inl (x, e)) ↦ rw more (rw e (ground arith))
      | inr (inr e) ↦ absurd (receive_chunk-ne-stuck size got s e)
    ]
  ]

  -- On a connection that is up, the loop ends with the bytes or where the peer sent too few.
  pub receive_chunks-IsUp :
      (fuel size : ℕ) (got : List ℕ) (s : Stream)
      → IsUp s
      → size ≤ length got + fuel
      → length got ≤ size
      → ((r : List ℕ × Stream) × (receive_chunks k fuel size got s ≡ ok r) × IsUp r.1)
        ⊎ ((receive_chunks k fuel size got s ≡ err gone) × (length got + length (pending s) < size))
  unfolding receive_chunks
  receive_chunks-IsUp zero size got s up h b = inl ((got, s), ground arith, up)
  receive_chunks-IsUp (suc fuel) size got s up h b = elim (Bool-cases (ltb (length got) size)) [
    | inr full ↦ inl ((got, s), rw full, up)
    | inl more ↦
        let less : length got < size = ground arith in
        elim (receive_chunk-IsUp size got s up less) [
          | inr (e, end) ↦ inr (rw (more, e), omega (arith, ap length end))
          | inl ((got', s'), e, up') ↦
              let (front, grown, bound) = receive_chunk-IsRead size got s less e in
              let lengths = ap length front in
              let l1 = length-append got (pending s) in
              let l2 = length-append got' (pending s') in
              elim (receive_chunks-IsUp fuel size got' s' up' (omega arith) bound) [
                | inl (r, e', up'') ↦ inl (r, rw more (rw e e'), up'')
                | inr (e', short) ↦ inr (rw more (rw e e'), omega arith)
              ]
        ]
  ]
