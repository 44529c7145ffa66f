-- ===== src/Daemon/LogFile/Lines.antt =====
-- How many lines `seek_to_last_lines` of pueue_lib/src/log.rs leaves to read.
use pueue.Base.{
  ℕ, ◌+◌, ◌-◌, ◌≤◌, ◌≡◌, refl, sym, ap, ◌∙◌, subst, true, false, none, some, List, [], ◌∷◌, ◌++◌,
  reverse, length, length-append, drop, append_assoc, inl, inr, Bool-cases, Option-cases, ◌==◌,
  nat_ord, ==→eq, ltb, if◌then◌else◌, arith,
}
use pueue.Daemon.LogFile.{
  Sought, whole, at, unmoved, newline, scan_back, position_of, seek_to_last_lines,
}
use mathlib.Core.List.{reverse-append, reverse-reverse, reverse-cons}

abbrev pub count_lines : List ℕ → ℕ
count_lines [] = 0
count_lines (byte ∷ bytes) = (if byte == newline then 1 else 0) + count_lines bytes

count_lines-append : (xs ys : List ℕ) → count_lines (xs ++ ys) ≡ count_lines xs + count_lines ys
count_lines-append [] ys = omega arith
count_lines-append (x ∷ xs) ys = omega (arith, count_lines-append xs ys)

count_lines-reverse : (xs : List ℕ) → count_lines (reverse xs) ≡ count_lines xs
count_lines-reverse [] = refl
count_lines-reverse (x ∷ xs) =
    rw (reverse-cons x xs)
      (omega (arith, count_lines-append (reverse xs) (x ∷ []), count_lines-reverse xs))

length-reverse : (xs : List ℕ) → length (reverse xs) ≡ length xs
length-reverse [] = refl
length-reverse (x ∷ xs) =
    rw (reverse-cons x xs) (omega (arith, length-append (reverse xs) (x ∷ []), length-reverse xs))

drop-append : (xs ys : List ℕ) → drop (length xs) (xs ++ ys) ≡ ys
drop-append [] ys = refl
drop-append (x ∷ xs) ys = drop-append xs ys

scan_back-none :
    (bytes : List ℕ) (amount found total : ℕ)
    → found ≤ amount
    → scan_back bytes amount found total ≡ none
    → found + count_lines bytes ≤ amount
unfolding scan_back
scan_back-none [] amount found total h e = omega arith
scan_back-none (byte ∷ bytes) amount found total h e = ground (
  arith,
  scan_back-none bytes amount found (total + 1),
  scan_back-none bytes amount (found + 1) (total + 1),
)

scan_back-some :
    (bytes : List ℕ) (amount found total : ℕ) {n : ℕ}
    → found ≤ amount
    → scan_back bytes amount found total ≡ some n
    → (front : List ℕ) × (back : List ℕ) × (bytes ≡ front ++ (newline ∷ back))
      × (n ≡ total + length front + 1)
      × (found + count_lines front ≡ amount)
unfolding scan_back
scan_back-some [] amount found total h e = cc
scan_back-some (byte ∷ bytes) amount found total {n} h e = elim (Bool-cases (byte == newline)) [
  | inr other ↦
      let (front, back, split, m, c) =
        scan_back-some bytes amount found (total + 1) {n = n} h (ground (arith, e, other)) in
      (byte ∷ front, back, ap (λ xs. byte ∷ xs) split, omega arith, ground arith)
  | inl here ↦ elim (Bool-cases (found + 1 == amount + 1)) [
    | inl last ↦
        let m : total + 1 ≡ n = ground (arith, e) in
        ([], bytes, ap (λ b. b ∷ bytes) (==→eq byte newline here), omega arith, ground arith)
    | inr more ↦
        let (front, back, split, m, c) =
          scan_back-some bytes amount (found + 1) (total + 1) {n = n} (ground (arith, more))
            (ground (arith, e, here, more)) in
        (byte ∷ front, back, ap (λ xs. byte ∷ xs) split, omega arith, ground arith)
  ]
]

-- What `seek_to_last_lines` leaves to read.
abbrev pub Leaves : List ℕ → ℕ → Sought → Type 0
Leaves content amount whole = count_lines content ≤ amount
Leaves content amount (at position) =
    (before : List ℕ) × (content ≡ before ++ (newline ∷ drop position content))
    × (count_lines (drop position content) ≡ amount)
Leaves content amount unmoved =
    (before : List ℕ) × (content ≡ before ++ (newline ∷ [])) × (amount ≡ 0)

-- The content, split at the newline that the scan found.
split_of :
    (content front back : List ℕ)
    → reverse content ≡ front ++ (newline ∷ back)
    → content ≡ reverse back ++ (newline ∷ reverse front)
split_of content front back e =
    sym (reverse-reverse content)
    ∙ ap reverse e
    ∙ reverse-append front (newline ∷ back)
    ∙ ap (λ xs. xs ++ reverse front) (reverse-cons newline back)
    ∙ append_assoc (reverse back) (newline ∷ []) (reverse front)

position-Leaves :
    (content before after : List ℕ) (amount : ℕ)
    → content ≡ before ++ (newline ∷ after)
    → count_lines after ≡ amount
    → Leaves content amount (position_of (length content) (length after + 1))
position-Leaves content before [] amount e c =
    let l = length-append before (newline ∷ []) in
    let full = ap length e in
    let end : ltb (length content + 1 - 1) (length content) ≡ false = ground arith in
    let sought : position_of (length content) 1 ≡ unmoved = rw end in
    subst (λ s. Leaves content amount s) (sym sought) (before, e, omega arith)
position-Leaves content before (x ∷ xs) amount e c =
    let l = length-append before (newline ∷ x ∷ xs) in
    let full = ap length e in
    let position = length content + 1 - (length (x ∷ xs) + 1) in
    let inside : ltb position (length content) ≡ true = ground arith in
    let after : drop position content ≡ x ∷ xs =
      let here : position ≡ length (before ++ (newline ∷ [])) =
        omega (arith, length-append before (newline ∷ [])) in
      rw (here, e)
        (ap (drop (length (before ++ (newline ∷ []))))
            (sym (append_assoc before (newline ∷ []) (x ∷ xs)))
          ∙ drop-append (before ++ (newline ∷ [])) (x ∷ xs)) in
    let sought : position_of (length content) (length (x ∷ xs) + 1) ≡ at position = rw inside in
    subst (λ s. Leaves content amount s) (sym sought)
      (before, e ∙ ap (λ ys. before ++ (newline ∷ ys)) (sym after), ap count_lines after ∙ c)

-- `seek_to_last_lines` puts the cursor behind a newline such that exactly the requested number of
-- newlines is left to read; it answers that the whole file is left only if the file has at most
-- that many; and it leaves the cursor alone only if no line is requested and the file ends with a
-- newline.
pub seek_to_last_lines-Leaves :
    (content : List ℕ) (amount : ℕ) → Leaves content amount (seek_to_last_lines content amount)
unfolding seek_to_last_lines
seek_to_last_lines-Leaves content amount =
    elim (Option-cases (scan_back (reverse content) amount 0 0)) [
      | inl e ↦
          let found : seek_to_last_lines content amount ≡ whole = rw (e, seek_to_last_lines) in
          subst (λ s. Leaves content amount s) (sym found)
            (omega (
              arith,
              scan_back-none (reverse content) amount 0 0 (omega arith) e,
              count_lines-reverse content,
            ))
      | inr (n, e) ↦
          let (front, back, split, m, c) =
            scan_back-some (reverse content) amount 0 0 (omega arith) e in
          let same : n ≡ length (reverse front) + 1 = omega (arith, length-reverse front) in
          let found : seek_to_last_lines content amount
              ≡ position_of (length content) (length (reverse front) + 1) =
            rw (e, seek_to_last_lines) (ap (position_of (length content)) same) in
          subst (λ s. Leaves content amount s) (sym found)
            (position-Leaves content (reverse back) (reverse front) amount
              (split_of content front back split) (omega (arith, count_lines-reverse front)))
    ]
