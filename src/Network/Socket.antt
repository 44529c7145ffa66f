-- ===== src/Network/Socket.antt =====
-- What the protocol takes from its surroundings (tokio, byteorder and ciborium, or the blocking
-- streams of the standard library), and the errors of pueue_lib/src/error.rs.
use pueue.Base.{ℕ, ◌^◌, ◌≤◌, ◌<◌, ◌≡◌, String, Option, some, List, ◌++◌, length, Result}

-- The texts of errors that come from outside are left out.
pub data Error : Type 0 where
  invalid_path certificate_failure : Error
  connection : String → Error
  empty_payload message_deserialization unexpected_payload message_serialization : Error
  message_too_big : (message_size max_size : ℕ) → Error
  config_deserialization : Error
  generic : String → Error
  io_error : String → Error
  raw_io_error io_path_error unix_socket_exists : Error

abbrev pub Received {ℓ} : Type ℓ → Type ℓ
Received A = Result Error A

-- A connected stream and the coding of a `u64`. `pending` is what the peer has sent and nobody has
-- read, `sent` what was written here; `IsUp` says that no operation fails from here on.
pub record Socket : Type 1 where
  pub Stream : Type 0
  pub pending : Stream → List ℕ
  pub sent : Stream → List ℕ
  pub IsUp : Stream → Type 0
  -- `read` into a buffer of this length: the bytes that came, or an error.
  pub read : ℕ → Stream → Option (List ℕ × Stream)
  pub read_exact : ℕ → Stream → Option (List ℕ × Stream)
  pub write_all : List ℕ → Stream → Option Stream
  pub flush : Stream → Option Stream
  pub write_u64 : ℕ → List ℕ
  pub read_u64 : List ℕ → ℕ
  pub read_some :
      (n : ℕ) (s : Stream) {c : List ℕ} {t : Stream}
      → read n s ≡ some (c, t)
      → (pending s ≡ c ++ pending t) × (length c ≤ n)
  -- No byte comes only where none is left.
  pub read_up :
      (n : ℕ) (s : Stream)
      → IsUp s
      → (c : List ℕ) × (t : Stream) × (read n s ≡ some (c, t))
        × IsUp t
        × (0 < n → 0 < length (pending s) → 0 < length c)
  pub read_exact_some :
      (n : ℕ) (s : Stream) {c : List ℕ} {t : Stream}
      → read_exact n s ≡ some (c, t)
      → (pending s ≡ c ++ pending t) × (length c ≡ n)
  pub read_exact_up :
      (n : ℕ) (s : Stream)
      → IsUp s
      → n ≤ length (pending s)
      → (c : List ℕ) × (t : Stream) × (read_exact n s ≡ some (c, t)) × IsUp t
  pub write_all_some :
      (bytes : List ℕ) (s : Stream) {t : Stream}
      → write_all bytes s ≡ some t
      → sent t ≡ sent s ++ bytes
  pub write_all_up :
      (bytes : List ℕ) (s : Stream) → IsUp s → (t : Stream) × (write_all bytes s ≡ some t) × IsUp t
  pub flush_some : (s : Stream) {t : Stream} → flush s ≡ some t → sent t ≡ sent s
  pub flush_up : (s : Stream) → IsUp s → (t : Stream) × (flush s ≡ some t) × IsUp t
  pub length-write_u64 : (n : ℕ) → length (write_u64 n) ≡ 8
  pub read_u64-write_u64 : (n : ℕ) → n < 2 ^ 64 → read_u64 (write_u64 n) ≡ n
