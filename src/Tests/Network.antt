-- ===== src/Tests/Network.antt =====
-- Tests of pueue_lib/src/network/protocol.rs, and of what the connections of the daemon carry
-- (pueue/src/daemon/network/socket/mod.rs, message_handler/log.rs and pueue_lib/src/log.rs).
use pueue.Base.{
  ℕ, ◌≤◌, ◌≡◌, ◌≢◌, refl, Option, none, some, List, [], ◌∷◌, ◌++◌, length, Bool, false, ok, err,
  stuck, arith,
}
use pueue.Network.Protocol.{chunks, send_message, receive_message, receive_bytes_with_max_size}
use pueue.Network.Protocol.Receiving.{gone}
use pueue.Network.Protocol.RoundTrip.{
  receive_message-send_message, receive_bytes_with_max_size-reads,
  receive_bytes_with_max_size-ne-stuck, receive_bytes_with_max_size-gone,
}
use pueue.Daemon.LogFile.{seek_to_last_lines, at}
use pueue.Daemon.LogFile.Lines.{Leaves, seek_to_last_lines-Leaves}
use pueue.Tests.Sockets.{Pipe, pipe, of_big_endian}

abbrev sender : Pipe
sender = record { incoming = []; outgoing = 9 ∷ [] }

-- A message of one number, which is its payload four times.
abbrev write_number : ℕ → Option (List ℕ)
write_number n = some (n ∷ n ∷ n ∷ n ∷ [])

abbrev read_number : List ℕ → Option ℕ
read_number [] = none
read_number (n ∷ bytes) = some n

abbrev never_value : List ℕ → Bool
never_value bytes = false

abbrev sent_seven : Pipe
sent_seven = record {
  incoming = [];
  outgoing = 9 ∷ 0 ∷ 0 ∷ 0 ∷ 0 ∷ 0 ∷ 0 ∷ 0 ∷ 4 ∷ 7 ∷ 7 ∷ 7 ∷ 7 ∷ [];
}

-- The receiver finds the message, and two bytes of the next one.
abbrev receiver : Pipe
receiver = record {
  incoming = 0 ∷ 0 ∷ 0 ∷ 0 ∷ 0 ∷ 0 ∷ 0 ∷ 4 ∷ 7 ∷ 7 ∷ 7 ∷ 7 ∷ 0 ∷ 0 ∷ [];
  outgoing = [];
}

send_seven : send_message pipe write_number 7 sender ≡ ok sent_seven
unfolding send_message
send_seven = refl

receive_message-send_message_example :
    (r' : Pipe) × (receive_message pipe read_number never_value receiver ≡ ok (7, r'))
    × (r'.incoming ≡ 0 ∷ 0 ∷ [])
    × Unit {0}
receive_message-send_message_example =
    receive_message-send_message pipe write_number read_number never_value 7 (7 ∷ 7 ∷ 7 ∷ 7 ∷ [])
      (0 ∷ 0 ∷ []) sender sent_seven receiver refl refl refl (omega arith) send_seven refl tt

receive_seven :
    receive_bytes_with_max_size pipe (some 10) receiver
    ≡ ok (7 ∷ 7 ∷ 7 ∷ 7 ∷ [], record { incoming = 0 ∷ 0 ∷ []; outgoing = [] })
unfolding receive_bytes_with_max_size
receive_seven = refl

receive_bytes_with_max_size-reads_example :
    (4 ≤ 10)
    × ((header : List ℕ) × (length header ≡ 8)
        × (of_big_endian 0 header ≡ 4)
        × (receiver.incoming ≡ header ++ (7 ∷ 7 ∷ 7 ∷ 7 ∷ 0 ∷ 0 ∷ [])))
receive_bytes_with_max_size-reads_example =
    receive_bytes_with_max_size-reads pipe 10 receiver
      (record { incoming = 0 ∷ 0 ∷ []; outgoing = [] }) (7 ∷ 7 ∷ 7 ∷ 7 ∷ []) receive_seven

receive_bytes_with_max_size-ne-stuck_example :
    receive_bytes_with_max_size pipe none receiver ≢ stuck
receive_bytes_with_max_size-ne-stuck_example =
    receive_bytes_with_max_size-ne-stuck pipe none receiver

-- Five bytes are announced and two come.
abbrev broken : Pipe
broken = record { incoming = 0 ∷ 0 ∷ 0 ∷ 0 ∷ 0 ∷ 0 ∷ 0 ∷ 5 ∷ 1 ∷ 2 ∷ []; outgoing = [] }

receive_bytes_with_max_size-gone_example : receive_bytes_with_max_size pipe none broken ≡ err gone
receive_bytes_with_max_size-gone_example =
    receive_bytes_with_max_size-gone pipe none broken (0 ∷ 0 ∷ 0 ∷ 0 ∷ 0 ∷ 0 ∷ 0 ∷ 5 ∷ [])
      (1 ∷ 2 ∷ []) tt refl refl (omega arith) refl

-- The last line of "a\nb\nc\n".
abbrev three_lines : List ℕ
three_lines = 97 ∷ 10 ∷ 98 ∷ 10 ∷ 99 ∷ 10 ∷ []

last_line : seek_to_last_lines three_lines 1 ≡ at 4
unfolding seek_to_last_lines
last_line = refl

seek_to_last_lines-Leaves_example : Leaves three_lines 1 (seek_to_last_lines three_lines 1)
seek_to_last_lines-Leaves_example = seek_to_last_lines-Leaves three_lines 1

chunks_of_two :
    chunks {A = ℕ} 5 2 (1 ∷ 2 ∷ 3 ∷ 4 ∷ 5 ∷ []) ≡ (1 ∷ 2 ∷ []) ∷ (3 ∷ 4 ∷ []) ∷ (5 ∷ []) ∷ []
unfolding chunks
chunks_of_two = refl
