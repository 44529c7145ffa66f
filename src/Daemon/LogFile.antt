-- ===== src/Daemon/LogFile.antt =====
-- pueue_lib/src/log.rs: the last lines of a log file. A file is its bytes. The reader from the back
-- (rev_buf_reader) hands them out block by block, and the scan takes them one by one from the end;
-- the `i64` counters of the source hold any length below 2 ^ 63.
pub mod Lines
use pueue.Base.{
  ℕ, suc, ◌+◌, ◌-◌, Bool, true, false, Option, none, some, List, [], ◌∷◌, reverse, length, drop,
  ltb, ◌==◌, nat_ord, if◌then◌else◌,
}
use pueue.Daemon.Os.{Os, Trace}

-- Where `seek_to_last_lines` leaves the cursor: at the start with the answer `true`, or at a position
-- or where the reader left it with the answer `false`.
pub data Sought : Type 0 where
  whole : Sought
  at : (position : ℕ) → Sought
  unmoved : Sought

abbrev pub newline : ℕ
newline = b'\n'

-- The loop over the bytes from the back: `total_read_bytes` at the newline before the last `amount`
-- lines.
unfoldable pub scan_back : List ℕ → (amount found_lines total_read_bytes : ℕ) → Option ℕ
scan_back [] amount found_lines total_read_bytes = none
scan_back (byte ∷ bytes) amount found_lines total_read_bytes =
    let lines = if byte == newline then found_lines + 1 else found_lines in
    let rest = scan_back bytes amount lines (total_read_bytes + 1) in
    if byte == newline
    then (if lines == amount + 1 then some (total_read_bytes + 1) else rest)
    else rest

-- `start_position - total_read_bytes + 1`, which is not negative.
abbrev pub position_of : ℕ → ℕ → Sought
position_of start_position total_read_bytes =
    let distance = start_position + 1 - total_read_bytes in
    if ltb distance start_position then at distance else unmoved

-- `amount + 1` leaves `usize` for the greatest amount only. A build with overflow checks panics there;
-- without them the count of the newlines never reaches the sum, as here in a file with fewer.
unfoldable pub seek_to_last_lines : List ℕ → ℕ → Sought
unfolding scan_back
seek_to_last_lines content amount = elim (scan_back (reverse content) amount 0 0) [
  | none ↦ whole
  | some total_read_bytes ↦ position_of (length content) total_read_bytes
]

-- What is left to read, where the reader leaves the cursor at `left_at`.
abbrev pub remaining : (left_at : ℕ) → List ℕ → Sought → List ℕ
remaining left_at content whole = content
remaining left_at content (at position) = drop position content
remaining left_at content unmoved = drop left_at content
