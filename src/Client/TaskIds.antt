-- ===== src/Client/TaskIds.antt =====
-- pueue/src/client/task_ids_parser.rs, on the characters of the argument.
pub mod Ranges
pub mod Pieces
pub mod Listed
use pueue.Base.{
  ℕ, zero, suc, ◌+◌, ◌-◌, ◌%◌, String, Bool, true, false, not, ◌&&◌, ◌||◌, Option, none, some, List,
  [], ◌∷◌, ◌++◌, length, reverse, is_empty, ltb, leb, contains, ◌==◌, nat_ord, Result, ok, err,
  stuck, or_err, if◌then◌else◌,
}
use pueue.Base.Results.{◌>>=◌}
use pueue.Client.Numbers.{parse_usize, usize_limit}

-- The messages, without the texts that they quote. `overflows` is the panic of
-- `current += step` in a build that checks for overflows.
pub data ParseError : Type 0 where
  bad_start bad_end bad_step zero_step : ParseError
  start_after_end : (start end : ℕ) → ParseError
  bad_format bad_id overflows : ParseError

abbrev pub Parsed : Type 0 → Type 0
Parsed A = Result ParseError A

-- `char::is_whitespace`.
abbrev pub is_space : ℕ → Bool
is_space c =
    (leb 9 c && leb c 13)
    || (contains (32 ∷ 133 ∷ 160 ∷ 5760 ∷ 8232 ∷ 8233 ∷ 8239 ∷ 8287 ∷ 12288 ∷ []) c
        || (leb 8192 c && leb c 8202))

unfoldable pub trim_start : List ℕ → List ℕ
trim_start [] = []
trim_start (c ∷ cs) = let rest = trim_start cs in if is_space c then rest else c ∷ cs

unfoldable pub trim : List ℕ → List ℕ
unfolding trim_start
trim cs = reverse (trim_start (reverse (trim_start cs)))

-- `split(separator)`: the first piece is put before the pieces of the rest.
abbrev pub push_front : ℕ → List (List ℕ) → List (List ℕ)
push_front c [] = (c ∷ []) ∷ []
push_front c (piece ∷ pieces) = (c ∷ piece) ∷ pieces

unfoldable pub split : ℕ → List ℕ → List (List ℕ)
split separator [] = [] ∷ []
split separator (c ∷ cs) =
    let pieces = split separator cs in if c == separator then [] ∷ pieces else push_front c pieces

-- `start..=end`, from the number of ids on.
unfoldable pub count_up : ℕ → ℕ → List ℕ
count_up start zero = []
count_up start (suc n) = start ∷ count_up (start + 1) n

-- `current += step`, which wraps around where nothing checks for an overflow.
unfoldable pub advance : (current step : ℕ) → ℕ
advance current step = (current + step) % usize_limit

abbrev pub overflows_at : (overflow_checks : Bool) → (current step : ℕ) → Bool
overflows_at overflow_checks current step =
    overflow_checks && not (ltb (current + step) usize_limit)

-- The loop of a range with a step, with fuel for its rounds; `stuck` is a loop that goes on. A build
-- with overflow checks (the debug profile) panics where `current += step` leaves `usize`.
unfoldable pub step_loop : (overflow_checks : Bool) → ℕ → (step end current : ℕ) → Parsed (List ℕ)
unfolding advance
step_loop overflow_checks zero step end current = if leb current end then stuck else ok []
step_loop overflow_checks (suc fuel) step end current = elim (leb current end) [
  | false ↦ ok []
  | true ↦ elim (overflows_at overflow_checks current step) [
    | true ↦ err overflows
    | false ↦
        step_loop overflow_checks fuel step end (advance current step) >>= λ ids. ok (current ∷ ids)
  ]
]

-- With checks, `current` grows in each round. Without them, a loop with more rounds than there are
-- values of `current` repeats one, and goes on for ever.
abbrev pub rounds_of : (overflow_checks : Bool) → (start end : ℕ) → ℕ
rounds_of true start end = end + 1 - start
rounds_of false start end = usize_limit

abbrev pub checked_range : (start end : ℕ) → Parsed (List ℕ) → Parsed (List ℕ)
checked_range start end ids = if ltb end start then err (start_after_end start end) else ids

unfoldable pub parse_range : (overflow_checks : Bool) → List (List ℕ) → Parsed (List ℕ)
unfolding count_up step_loop trim
parse_range overflow_checks (a ∷ b ∷ []) = do
  start ← or_err bad_start (parse_usize (trim a))
  end ← or_err bad_end (parse_usize (trim b))
  checked_range start end (ok (count_up start (end + 1 - start)))
parse_range overflow_checks (a ∷ b ∷ c ∷ []) = do
  start ← or_err bad_start (parse_usize (trim a))
  end ← or_err bad_end (parse_usize (trim b))
  step ← or_err bad_step (parse_usize (trim c))
  if step == 0
      then err zero_step
      else checked_range start end
          (step_loop overflow_checks (rounds_of overflow_checks start end) step end start)
parse_range overflow_checks _ = err bad_format

-- A `BTreeSet` as its ascending list.
unfoldable pub insert_id : ℕ → List ℕ → List ℕ
insert_id id [] = id ∷ []
insert_id id (x ∷ xs) =
    if ltb id x then id ∷ x ∷ xs else if id == x then x ∷ xs else x ∷ insert_id id xs

unfoldable pub extend : List ℕ → List ℕ → List ℕ
unfolding insert_id
extend [] ids = ids
extend (x ∷ xs) ids = extend xs (insert_id x ids)

-- One part between commas, trimmed: the ids that it adds.
unfoldable pub parse_part : (overflow_checks : Bool) → List ℕ → Parsed (List ℕ)
unfolding parse_range split
parse_part overflow_checks part =
    let single : Parsed (List ℕ) = (do id ← or_err bad_id (parse_usize part); ok (id ∷ [])) in
    if is_empty part
    then ok []
    else if contains part b':'
    then parse_range overflow_checks (split b':' part)
    else single

unfoldable pub parse_parts : (overflow_checks : Bool) → List (List ℕ) → List ℕ → Parsed (List ℕ)
unfolding parse_part extend
parse_parts overflow_checks [] ids = ok ids
parse_parts overflow_checks (part ∷ parts) ids = do
  added ← parse_part overflow_checks (trim part)
  parse_parts overflow_checks parts (extend added ids)

unfoldable pub parse_task_ids : (overflow_checks : Bool) → List ℕ → Parsed (List ℕ)
unfolding parse_parts
parse_task_ids overflow_checks input =
    if is_empty (trim input) then ok [] else parse_parts overflow_checks (split b',' input) []
