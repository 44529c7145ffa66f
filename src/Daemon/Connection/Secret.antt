-- ===== src/Daemon/Connection/Secret.antt =====
-- What a connection may do before it has shown the secret (pueue/src/daemon/network/socket/mod.rs).
use pueue.Base.{
  ℕ, ◌≡◌, refl, sym, ap, ◌∙◌, Bool, true, false, Option, some, List, [], ◌∷◌, nat_ord, ==→eq, arith,
  is_empty, inl, inr, Bool-cases, ok, Result-cases,
}
use pueue.Message.{Request, Response}
use pueue.Network.Socket.{Socket}
use pueue.Network.Protocol.{receive_bytes_with_max_size}
use pueue.Daemon.Os.{Os, Settings, finished}
use pueue.Daemon.Internal.{InternalState}
use pueue.Daemon.Connection.{Watch, Ended, same_bytes, max_secret_size, handle_incoming}

same_bytes→eq : (xs ys : List ℕ) → same_bytes xs ys ≡ true → xs ≡ ys
unfolding same_bytes
same_bytes→eq [] [] e = refl
same_bytes→eq [] (y ∷ ys) e = cc
same_bytes→eq (x ∷ xs) [] e = cc
same_bytes→eq (x ∷ xs) (y ∷ ys) e = ground (arith, ==→eq x y, same_bytes→eq xs ys)

module _ (k : Socket) (into_writer : Response → Option (List ℕ))
    (from_reader : List ℕ → Option Request) (is_value : List ℕ → Bool) (os : Os)
    (settings : Settings) (meanwhile : ℕ → InternalState → InternalState) (w : ℕ → Watch) where
  open k use {Stream}

  -- If a connection has had a request handled, then the first payload that it sent is the shared
  -- secret, which is not empty.
  pub handle_incoming-secret :
      (secret version : List ℕ) (rounds : ℕ) (s s' : InternalState) (c : Stream) (request : Request)
      (requests : List Request) (end : Ended)
      → handle_incoming k into_writer from_reader is_value os settings meanwhile w secret version
          rounds s c
        ≡ finished (s', request ∷ requests, end)
      → (c' : Stream) × (receive_bytes_with_max_size k (some max_secret_size) c ≡ ok (secret, c'))
        × (is_empty secret ≡ false)
  unfolding handle_incoming
  handle_incoming-secret secret version rounds s s' c request requests end e =
      elim (Result-cases (receive_bytes_with_max_size k (some max_secret_size) c)) [
        | inr (inl (x, r)) ↦ absurd (ground (arith, r, e))
        | inr (inr r) ↦ absurd (ground (arith, r, e))
        | inl ((payload, c'), r) ↦ elim (Bool-cases (is_empty payload)) [
          | inl n ↦ absurd (ground (arith, r, e, n))
          | inr m ↦ elim (Bool-cases (same_bytes payload secret)) [
            | inr n ↦ absurd (ground (arith, r, e, n, m))
            | inl y ↦
                let same = same_bytes→eq payload secret y in
                (c', r ∙ ap (λ p. ok (p, c')) same, ap is_empty (sym same) ∙ m)
          ]
        ]
      ]
