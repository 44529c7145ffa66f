-- ===== src/Client/TaskIds/Pieces.antt =====
-- The ids that the pieces of a range, between its colons, name.
use pueue.Base.{
  ℕ, ◌+◌, ◌-◌, ◌≤◌, ◌<◌, ◌≡◌, ◌≢◌, ◌⊎◌, inl, inr, Bool, true, false, subst, sym, Option, some, List,
  [], ◌∷◌, In, nat_ord, ok, err, stuck, or_err, ok_injective, >>=-eq-ok, or_err-eq-ok,
  or_err->>=-eq-stuck, arith,
}
use pueue.Client.Numbers.{parse_usize, usize_limit}
use pueue.Client.TaskIds.{
  overflows, bad_start, bad_end, bad_step, Parsed, count_up, rounds_of, step_loop, checked_range,
  parse_range, trim,
}
use pueue.Client.TaskIds.Ranges.{
  IsStep, IsSafe, step_loop-ne-stuck, step_loop-overflows, In-count_up, count_up-In, In-step_loop,
  step_loop-In,
}

-- The ids that the pieces between colons name: `start:end`, or `start:end:step`.
abbrev pub InRange : List (List ℕ) → ℕ → Type 0
InRange (a ∷ b ∷ []) x =
    (start end : ℕ) × (parse_usize (trim a) ≡ some start)
    × (parse_usize (trim b) ≡ some end)
    × (start ≤ x)
    × (x ≤ end)
InRange (a ∷ b ∷ c ∷ []) x =
    (start end step : ℕ) × (parse_usize (trim a) ≡ some start)
    × (parse_usize (trim b) ≡ some end)
    × (parse_usize (trim c) ≡ some step)
    × IsStep step end start x
InRange _ x = ⊥

-- No step beyond the end of the range leaves `usize`.
abbrev pub FitsStep : List (List ℕ) → Type 0
FitsStep (a ∷ b ∷ c ∷ []) =
    (end step : ℕ)
    → parse_usize (trim b) ≡ some end
    → parse_usize (trim c) ≡ some step
    → end + step < usize_limit
FitsStep _ = Unit

FitsStep-IsSafe :
    (checks : Bool) (a b c : List ℕ) (end step : ℕ)
    → (checks ≡ true) ⊎ FitsStep (a ∷ b ∷ c ∷ [])
    → parse_usize (trim b) ≡ some end
    → parse_usize (trim c) ≡ some step
    → IsSafe checks step end
FitsStep-IsSafe checks a b c end step (inl checked) e2 e3 = inl checked
FitsStep-IsSafe checks a b c end step (inr fits) e2 e3 = inr (fits end step e2 e3)

checked_range-eq-ok :
    (start end : ℕ) (m : Parsed (List ℕ)) (ids : List ℕ)
    → checked_range start end m ≡ ok ids
    → (start ≤ end) × (m ≡ ok ids)
checked_range-eq-ok start end m ids e = (ground arith, ground arith)

two_pieces :
    (checks : Bool) (a b : List ℕ) (ids : List ℕ)
    → parse_range checks (a ∷ b ∷ []) ≡ ok ids
    → (start end : ℕ) × (parse_usize (trim a) ≡ some start)
      × (parse_usize (trim b) ≡ some end)
      × (start ≤ end)
      × (ids ≡ count_up start (end + 1 - start))
unfolding parse_range
two_pieces checks a b ids e =
    let (start, e1, r1) = >>=-eq-ok (or_err bad_start (parse_usize (trim a))) _ e in
    let (end, e2, r2) = >>=-eq-ok (or_err bad_end (parse_usize (trim b))) _ r1 in
    let (below, r3) =
      checked_range-eq-ok start end (ok (count_up start (end + 1 - start))) ids r2 in
    (start, end, or_err-eq-ok _ _ e1, or_err-eq-ok _ _ e2, below, sym (ok_injective r3))

three_pieces :
    (checks : Bool) (a b c : List ℕ) (ids : List ℕ)
    → parse_range checks (a ∷ b ∷ c ∷ []) ≡ ok ids
    → (start end step : ℕ) × (parse_usize (trim a) ≡ some start)
      × (parse_usize (trim b) ≡ some end)
      × (parse_usize (trim c) ≡ some step)
      × (step_loop checks (rounds_of checks start end) step end start ≡ ok ids)
unfolding parse_range
three_pieces checks a b c ids e =
    let (start, e1, r1) = >>=-eq-ok (or_err bad_start (parse_usize (trim a))) _ e in
    let (end, e2, r2) = >>=-eq-ok (or_err bad_end (parse_usize (trim b))) _ r1 in
    let (step, e3, r3) = >>=-eq-ok (or_err bad_step (parse_usize (trim c))) _ r2 in
    let checked : checked_range start end
          (step_loop checks (rounds_of checks start end) step end start)
        ≡ ok ids =
      ground (arith, r3) in
    let (below, r4) =
      checked_range-eq-ok start end (step_loop checks (rounds_of checks start end) step end start)
        ids checked in
    (start, end, step, or_err-eq-ok _ _ e1, or_err-eq-ok _ _ e2, or_err-eq-ok _ _ e3, r4)

pub In-parse_range :
    (checks : Bool) (pieces : List (List ℕ)) (ids : List ℕ) (x : ℕ)
    → (checks ≡ true) ⊎ FitsStep pieces
    → parse_range checks pieces ≡ ok ids
    → In x ids
    → InRange pieces x
unfolding parse_range
In-parse_range checks [] ids x safe e m = cc
In-parse_range checks (a ∷ []) ids x safe e m = cc
In-parse_range checks (a ∷ b ∷ []) ids x safe e m =
    let (start, end, e1, e2, below, shape) = two_pieces checks a b ids e in
    let (low, high) = In-count_up (end + 1 - start) start x (subst (λ l. In x l) shape m) in
    (start, end, e1, e2, low, omega arith)
In-parse_range checks (a ∷ b ∷ c ∷ []) ids x safe e m =
    let (start, end, step, e1, e2, e3, found) = three_pieces checks a b c ids e in
    (
      start,
      end,
      step,
      e1,
      e2,
      e3,
      In-step_loop checks (rounds_of checks start end) step end start x ids
          (FitsStep-IsSafe checks a b c end step safe e2 e3) found m,
    )
In-parse_range checks (a ∷ b ∷ c ∷ d ∷ r) ids x safe e m = cc

same_number : {n m : ℕ} {o : Option ℕ} → o ≡ some n → o ≡ some m → n ≡ m
same_number p q = cc

pub parse_range-In :
    (checks : Bool) (pieces : List (List ℕ)) (ids : List ℕ) (x : ℕ)
    → (checks ≡ true) ⊎ FitsStep pieces
    → parse_range checks pieces ≡ ok ids
    → InRange pieces x
    → In x ids
parse_range-In checks [] ids x safe e m = absurd m
parse_range-In checks (a ∷ []) ids x safe e m = absurd m
parse_range-In checks (a ∷ b ∷ []) ids x safe e (start', end', p1, p2, low, high) =
    let (start, end, e1, e2, below, shape) = two_pieces checks a b ids e in
    let same = same_number e1 p1 in
    let same' = same_number e2 p2 in
    subst (λ l. In x l) (sym shape)
      (count_up-In (end + 1 - start) start x (omega arith) (omega arith))
parse_range-In checks (a ∷ b ∷ c ∷ []) ids x safe e (start', end', step', p1, p2, p3, place) =
    let (start, end, step, e1, e2, e3, found) = three_pieces checks a b c ids e in
    let same = same_number e1 p1 in
    let same' = same_number e2 p2 in
    let same'' = same_number e3 p3 in
    let (k, reached, inside) = place in
    step_loop-In checks (rounds_of checks start end) step end start x ids
      (FitsStep-IsSafe checks a b c end step safe e2 e3) found (k, cc, omega arith)
parse_range-In checks (a ∷ b ∷ c ∷ d ∷ r) ids x safe e m = absurd m

-- The rounds are enough.
rounds_of-enough :
    (checks : Bool) (start end step : ℕ)
    → IsSafe checks step end
    → end < start + rounds_of checks start end
rounds_of-enough true start end step safe = omega arith
rounds_of-enough false start end step (inl checked) = absurd (cc checked)
rounds_of-enough false start end step (inr fits) = omega arith

pub parse_range-ne-stuck :
    (checks : Bool) (pieces : List (List ℕ))
    → (checks ≡ true) ⊎ FitsStep pieces
    → parse_range checks pieces ≢ stuck
unfolding parse_range
parse_range-ne-stuck checks [] safe e = cc
parse_range-ne-stuck checks (a ∷ []) safe e = cc
parse_range-ne-stuck checks (a ∷ b ∷ []) safe e =
    let (start, e1, r1) = or_err->>=-eq-stuck bad_start (parse_usize (trim a)) _ e in
    let (end, e2, r2) = or_err->>=-eq-stuck bad_end (parse_usize (trim b)) _ r1 in
    ground (arith, r2)
parse_range-ne-stuck checks (a ∷ b ∷ c ∷ []) safe e =
    let (start, e1, r1) = or_err->>=-eq-stuck bad_start (parse_usize (trim a)) _ e in
    let (end, e2, r2) = or_err->>=-eq-stuck bad_end (parse_usize (trim b)) _ r1 in
    let (step, e3, r3) = or_err->>=-eq-stuck bad_step (parse_usize (trim c)) _ r2 in
    let safe' = FitsStep-IsSafe checks a b c end step safe e2 e3 in
    let loops = λ (positive : step ≢ 0).
      step_loop-ne-stuck checks (rounds_of checks start end) step end start safe' positive
        (rounds_of-enough checks start end step safe') in
    ground (arith, r3, loops)
parse_range-ne-stuck checks (a ∷ b ∷ c ∷ d ∷ r) safe e = cc

-- In a build with overflow checks, a range with a step whose end is the greatest `usize`, and that
-- parses otherwise, panics: the step after its last id leaves `usize`.
pub parse_range-overflows :
    (a b c : List ℕ) (start end step : ℕ)
    → parse_usize (trim a) ≡ some start
    → parse_usize (trim b) ≡ some end
    → parse_usize (trim c) ≡ some step
    → step ≢ 0
    → start ≤ end
    → end + 1 ≡ usize_limit
    → parse_range true (a ∷ b ∷ c ∷ []) ≡ err overflows
unfolding parse_range
parse_range-overflows a b c start end step e1 e2 e3 positive below last =
    let loops =
      step_loop-overflows (end + 1 - start) step end start positive (omega arith) below
        (omega arith) in
    rw (e1, e2, e3) (ground (arith, loops))
