-- ===== src/Tests/Sockets.antt =====
-- A connection that hands out three bytes at most at a time, and what the protocol of
-- pueue_lib/src/network/protocol.rs does over it.
use pueue.Base.{
  ℕ, zero, suc, ◌+◌, ◌*◌, ◌/◌, ◌%◌, ◌^◌, ◌≤◌, ◌<◌, ◌≡◌, refl, Option, none, some, List, [], ◌∷◌,
  ◌++◌, length, take, drop, take-drop, length-take_of_le, ltb, if◌then◌else◌, arith,
}
use pueue.Network.Socket.{Socket}

pub record Pipe : Type 0 where
  pub incoming : List ℕ
  pub outgoing : List ℕ

abbrev capped : ℕ → ℕ
capped n = if ltb n 3 then n else 3

length-take-le : (n : ℕ) (xs : List ℕ) → length (take n xs) ≤ n
length-take-le zero xs = omega arith
length-take-le (suc n) [] = omega arith
length-take-le (suc n) (x ∷ xs) = omega (arith, length-take-le n xs)

take_pos : (n : ℕ) (xs : List ℕ) → 0 < n → 0 < length xs → 0 < length (take n xs)
take_pos zero xs h l = absurd (omega arith)
take_pos (suc n) [] h l = absurd (omega arith)
take_pos (suc n) (x ∷ xs) h l = omega arith

abbrev pub big_endian : ℕ → List ℕ
big_endian n =
    n / 2 ^ 56 % 256
    ∷ n / 2 ^ 48 % 256
    ∷ n / 2 ^ 40 % 256
    ∷ n / 2 ^ 32 % 256
    ∷ n / 2 ^ 24 % 256
    ∷ n / 2 ^ 16 % 256
    ∷ n / 2 ^ 8 % 256
    ∷ n % 256
    ∷ []

abbrev pub of_big_endian : ℕ → List ℕ → ℕ
of_big_endian acc [] = acc
of_big_endian acc (b ∷ bs) = of_big_endian (acc * 256 + b) bs

pub of_big_endian-big_endian : (n : ℕ) → n < 2 ^ 64 → of_big_endian 0 (big_endian n) ≡ n
of_big_endian-big_endian n h = omega arith

abbrev pub read_pipe : ℕ → Pipe → Option (List ℕ × Pipe)
read_pipe n s =
    some (take (capped n) s.incoming, record s { incoming = drop (capped n) s.incoming })

abbrev pub read_exactly : ℕ → Pipe → Option (List ℕ × Pipe)
read_exactly n s =
    if ltb (length s.incoming) n
    then none
    else some (take n s.incoming, record s { incoming = drop n s.incoming })

pub read_pipe-some :
    (n : ℕ) (s : Pipe) {c : List ℕ} {t : Pipe}
    → read_pipe n s ≡ some (c, t)
    → (s.incoming ≡ c ++ t.incoming) × (length c ≤ n)
read_pipe-some n s e =
    ground (arith, take-drop (capped n) s.incoming, length-take-le (capped n) s.incoming)

pub read_exactly-some :
    (n : ℕ) (s : Pipe) {c : List ℕ} {t : Pipe}
    → read_exactly n s ≡ some (c, t)
    → (s.incoming ≡ c ++ t.incoming) × (length c ≡ n)
read_exactly-some n s e = ground (arith, take-drop n s.incoming, length-take_of_le n s.incoming)

pub read_exactly-up :
    (n : ℕ) (s : Pipe)
    → Unit {0}
    → n ≤ length s.incoming
    → (c : List ℕ) × (t : Pipe) × (read_exactly n s ≡ some (c, t)) × Unit {0}
read_exactly-up n s up h =
    (take n s.incoming, record s { incoming = drop n s.incoming }, ground arith, tt)

pub read_pipe-up :
    (n : ℕ) (s : Pipe)
    → Unit {0}
    → (c : List ℕ) × (t : Pipe) × (read_pipe n s ≡ some (c, t))
      × Unit {0}
      × (0 < n → 0 < length s.incoming → 0 < length c)
read_pipe-up n s up = (
  take (capped n) s.incoming,
  record s { incoming = drop (capped n) s.incoming },
  refl,
  tt,
  λ h l. take_pos (capped n) s.incoming (ground arith) l,
)

abbrev pub write_pipe : List ℕ → Pipe → Option Pipe
write_pipe bytes s = some (record s { outgoing = s.outgoing ++ bytes })

pub write_pipe-some :
    (bytes : List ℕ) (s : Pipe) {t : Pipe}
    → write_pipe bytes s ≡ some t
    → t.outgoing ≡ s.outgoing ++ bytes
write_pipe-some bytes s e = ground arith

pub flush-some : (s : Pipe) {t : Pipe} → some s ≡ some t → t.outgoing ≡ s.outgoing
flush-some s e = ground arith

abbrev pub pipe : Socket
pipe = record {
  Stream = Pipe;
  pending = λ s. s.incoming;
  sent = λ s. s.outgoing;
  IsUp = λ _. Unit {0};
  read = read_pipe;
  read_exact = read_exactly;
  write_all = write_pipe;
  flush = λ s. some s;
  write_u64 = big_endian;
  read_u64 = of_big_endian 0;
  read_some = read_pipe-some;
  read_up = read_pipe-up;
  read_exact_some = read_exactly-some;
  read_exact_up = read_exactly-up;
  write_all_some = write_pipe-some;
  write_all_up = λ bytes s up. (record s { outgoing = s.outgoing ++ bytes }, refl, tt);
  flush_some = flush-some;
  flush_up = λ s up. (s, refl, tt);
  length-write_u64 = λ n. refl;
  read_u64-write_u64 = of_big_endian-big_endian;
}
