-- ===== src/Network/Protocol/Sending.antt =====
-- What `send_bytes` of pueue_lib/src/network/protocol.rs writes.
use pueue.Base.{
  ℕ, zero, suc, ◌≤◌, ◌<◌, ◌≡◌, refl, sym, ap, ◌∙◌, List, [], ◌∷◌, ◌++◌, length, take, drop,
  take-drop, length-drop-le, append_assoc, append-nil, inl, inr, arith, ok, or_err, >>=-eq-ok,
  or_err-eq-ok, ok_injective,
}
use pueue.Network.Socket.{Socket, io_error}
use pueue.Network.Protocol.{packet_size, chunks, write_chunks, send_bytes}

abbrev flatten {ℓ} : {A : Type ℓ} → List (List A) → List A
flatten [] = []
flatten (xs ∷ xss) = xs ++ flatten xss

flatten-chunks {ℓ} :
    {A : Type ℓ} (fuel size : ℕ) (xs : List A)
    → length xs ≤ fuel
    → 0 < size
    → flatten (chunks fuel size xs) ≡ xs
unfolding chunks
flatten-chunks zero size [] h pos = refl
flatten-chunks zero size (x ∷ xs) h pos = absurd (omega arith)
flatten-chunks (suc fuel) size [] h pos = refl
flatten-chunks (suc fuel) size (x ∷ xs) h pos =
    let short : length (drop size (x ∷ xs)) ≤ fuel = elim (length-drop-le size (x ∷ xs)) [
      | inl e ↦ omega arith
      | inr e ↦ rw e (omega arith)
    ] in
    ap (λ ys. take size (x ∷ xs) ++ ys) (flatten-chunks fuel size (drop size (x ∷ xs)) short pos)
    ∙ take-drop size (x ∷ xs)

module _ (k : Socket) where
  open k use {
    Stream, sent, IsUp, write_all, flush, write_u64, write_all_some, write_all_up, flush_some,
    flush_up,
  }

  sent-write_chunks :
      (chunks : List (List ℕ)) (s : Stream) {t : Stream}
      → write_chunks k chunks s ≡ ok t
      → sent t ≡ sent s ++ flatten chunks
  unfolding write_chunks
  sent-write_chunks [] s e = ap sent (sym (ok_injective e)) ∙ sym (append-nil (sent s))
  sent-write_chunks (chunk ∷ rest) s e =
      let (s', e1, e2) =
        >>=-eq-ok (or_err (io_error "sending payload chunk") (write_all chunk s)) _ e in
      sent-write_chunks rest s' e2
      ∙ ap (λ xs. xs ++ flatten rest) (write_all_some chunk s (or_err-eq-ok _ _ e1))
      ∙ append_assoc (sent s) chunk (flatten rest)

  write_chunks-IsUp :
      (chunks : List (List ℕ)) (s : Stream)
      → IsUp s
      → (t : Stream) × (write_chunks k chunks s ≡ ok t) × IsUp t
  unfolding write_chunks
  write_chunks-IsUp [] s up = (s, refl, up)
  write_chunks-IsUp (chunk ∷ rest) s up =
      let (s', e, up') = write_all_up chunk s up in
      let (t, e', up'') = write_chunks-IsUp rest s' up' in (t, rw e e', up'')

  -- What `send_bytes` appends to the stream: the length of the payload and the payload.
  pub sent-send_bytes :
      (payload : List ℕ) (s : Stream) {t : Stream}
      → send_bytes k payload s ≡ ok t
      → sent t ≡ sent s ++ (write_u64 (length payload) ++ payload)
  unfolding send_bytes
  sent-send_bytes payload s e =
      let (headed, e1, e2) =
        >>=-eq-ok
          (or_err (io_error "sending request size header")
            (write_all (write_u64 (length payload)) s))
          _ e in
      let (written, e3, e4) =
        >>=-eq-ok (write_chunks k (chunks (length payload) packet_size payload) headed) _ e2 in
      flush_some written (or_err-eq-ok _ _ e4)
      ∙ sent-write_chunks _ headed e3
      ∙ ap (λ xs. sent headed ++ xs)
          (flatten-chunks (length payload) packet_size payload (omega arith) (omega arith))
      ∙ ap (λ xs. xs ++ payload) (write_all_some _ s (or_err-eq-ok _ _ e1))
      ∙ append_assoc (sent s) (write_u64 (length payload)) payload

  pub send_bytes-IsUp :
      (payload : List ℕ) (s : Stream)
      → IsUp s
      → (t : Stream) × (send_bytes k payload s ≡ ok t) × IsUp t
  unfolding send_bytes
  send_bytes-IsUp payload s up =
      let (headed, e, up1) = write_all_up (write_u64 (length payload)) s up in
      let (written, e', up2) =
        write_chunks-IsUp (chunks (length payload) packet_size payload) headed up1 in
      let (t, e'', up3) = flush_up written up2 in (t, rw e (rw e' (rw e'' refl)), up3)
