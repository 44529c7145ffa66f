-- ===== src/Client/TaskIds/Listed.antt =====
-- The result of a parse: its ids, in their order.
use pueue.Base.{
  ℕ, suc, ◌≤◌, ◌≡◌, ◌≢◌, ◌↔◌, ◌⊎◌, inl, inr, refl, subst, sym, Bool, true, false, some, List, [],
  ◌∷◌, In, nat_ord, is_empty, contains, Bool-cases, Option-cases, Result-cases, ok, err, stuck,
  ok_injective, >>=-eq-ok, >>=-eq-stuck, or_err->>=-eq-stuck, arith,
}
use pueue.Client.Numbers.{parse_usize}
use pueue.Client.TaskIds.{
  bad_id, Parsed, parse_range, trim, split, insert_id, extend, parse_part, parse_parts,
  parse_task_ids,
}
use pueue.Client.TaskIds.Pieces.{
  FitsStep, InRange, In-parse_range, parse_range-In, parse_range-ne-stuck,
}

-- The ids grow along the list, from `low` on.
abbrev pub Grows : ℕ → List ℕ → Type 0
Grows low [] = Unit {0}
Grows low (x ∷ xs) = (low ≤ x) × Grows (suc x) xs

insert_id-Grows : (low id : ℕ) (xs : List ℕ) → low ≤ id → Grows low xs → Grows low (insert_id id xs)
unfolding insert_id
insert_id-Grows low id [] h g = (h, tt)
insert_id-Grows low id (x ∷ xs) h g = ground (arith, insert_id-Grows (suc x) id xs)

extend-Grows : (xs ids : List ℕ) → Grows 0 ids → Grows 0 (extend xs ids)
unfolding extend
extend-Grows [] ids g = g
extend-Grows (x ∷ xs) ids g =
    extend-Grows xs (insert_id x ids) (insert_id-Grows 0 x ids (omega arith) g)

In-insert_id : (x id : ℕ) (xs : List ℕ) → In x (insert_id id xs) ↔ ((x ≡ id) ⊎ In x xs)
unfolding insert_id
In-insert_id x id [] = ground arith
In-insert_id x id (y ∷ xs) = ground (arith, In-insert_id x id xs)

In-extend : (x : ℕ) (xs ids : List ℕ) → In x (extend xs ids) ↔ (In x xs ⊎ In x ids)
unfolding extend
In-extend x [] ids = ground arith
In-extend x (y ∷ xs) ids = ground (arith, In-extend x xs (insert_id y ids), In-insert_id x y ids)

-- The ids that a part between commas names.
abbrev pub Names : List ℕ → ℕ → Type 0
Names part x =
    ((contains part b':' ≡ true) × InRange (split b':' part) x)
    ⊎ ((contains part b':' ≡ false) × (parse_usize part ≡ some x))

abbrev pub NamedBy : List (List ℕ) → ℕ → Type 0
NamedBy [] x = ⊥
NamedBy (part ∷ parts) x = Names (trim part) x ⊎ NamedBy parts x

-- Each range with a step ends a step below the greatest `usize`.
abbrev pub Fits : List (List ℕ) → Type 0
Fits [] = Unit {0}
Fits (part ∷ parts) = FitsStep (split b':' (trim part)) × Fits parts

first_safe :
    (checks : Bool) (part : List ℕ) (parts : List (List ℕ))
    → (checks ≡ true) ⊎ Fits (part ∷ parts)
    → (checks ≡ true) ⊎ FitsStep (split b':' (trim part))
first_safe checks part parts (inl checked) = inl checked
first_safe checks part parts (inr fits) = inr fits.0

rest_safe :
    (checks : Bool) (part : List ℕ) (parts : List (List ℕ))
    → (checks ≡ true) ⊎ Fits (part ∷ parts)
    → (checks ≡ true) ⊎ Fits parts
rest_safe checks part parts (inl checked) = inl checked
rest_safe checks part parts (inr fits) = inr fits.1

-- Inversion of a single id.
single_id :
    (checks : Bool) (part ids : List ℕ)
    → is_empty part ≡ false
    → contains part b':' ≡ false
    → parse_part checks part ≡ ok ids
    → (id : ℕ) × (parse_usize part ≡ some id) × (ids ≡ id ∷ [])
unfolding parse_part
single_id checks part ids some_text single e = elim (Option-cases (parse_usize part)) [
  | inl none_left ↦ absurd (ground (arith, single, none_left))
  | inr (id, found) ↦ (id, found, ground (arith, single, found))
]

In-parse_part :
    (checks : Bool) (part ids : List ℕ) (x : ℕ)
    → (checks ≡ true) ⊎ FitsStep (split b':' part)
    → parse_part checks part ≡ ok ids
    → In x ids ↔ Names part x
unfolding parse_part
In-parse_part checks [] ids x safe e = unfold contains parse_usize in ground arith
In-parse_part checks (c ∷ cs) ids x safe e = elim (Bool-cases (contains (c ∷ cs) b':')) [
  | inl ranged ↦
      let pieces = split b':' (c ∷ cs) in
      let found : parse_range checks pieces ≡ ok ids = ground (arith, ranged) in
      ground (
        arith,
        ranged,
        In-parse_range checks pieces ids x safe,
        parse_range-In checks pieces ids x safe,
      )
  | inr single ↦
      let (id, found, shape) = single_id checks (c ∷ cs) ids refl single e in
      ground (arith, single, found, shape)
]

In-parse_parts :
    (checks : Bool) (parts : List (List ℕ)) (ids ids' : List ℕ) (x : ℕ)
    → (checks ≡ true) ⊎ Fits parts
    → parse_parts checks parts ids ≡ ok ids'
    → In x ids' ↔ (NamedBy parts x ⊎ In x ids)
unfolding parse_parts
In-parse_parts checks [] ids ids' x safe e = ground arith
In-parse_parts checks (part ∷ parts) ids ids' x safe e =
    let (added, found, rest) = >>=-eq-ok (parse_part checks (trim part)) _ e in
    ground (
      arith,
      In-parse_parts checks parts (extend added ids) ids' x (rest_safe checks part parts safe) rest,
      In-extend x added ids,
      In-parse_part checks (trim part) added x (first_safe checks part parts safe) found,
    )

parse_parts-Grows :
    (checks : Bool) (parts : List (List ℕ)) (ids ids' : List ℕ)
    → Grows 0 ids
    → parse_parts checks parts ids ≡ ok ids'
    → Grows 0 ids'
unfolding parse_parts
parse_parts-Grows checks [] ids ids' g e = subst (λ l. Grows 0 l) (ok_injective e) g
parse_parts-Grows checks (part ∷ parts) ids ids' g e =
    let (added, found, rest) = >>=-eq-ok (parse_part checks (trim part)) _ e in
    parse_parts-Grows checks parts (extend added ids) ids' (extend-Grows added ids g) rest

-- What a result says of an input.
abbrev pub Lists : List ℕ → Parsed (List ℕ) → Type 0
Lists input (ok ids) =
    Grows 0 ids
    × (((is_empty (trim input) ≡ true) × (ids ≡ []))
        ⊎ ((x : ℕ) → In x ids ↔ NamedBy (split b',' input) x))
Lists input (err e) = Unit
Lists input stuck = ⊥

parse_part-ne-stuck :
    (checks : Bool) (part : List ℕ)
    → (checks ≡ true) ⊎ FitsStep (split b':' part)
    → parse_part checks part ≢ stuck
unfolding parse_part
parse_part-ne-stuck checks [] safe e = cc
parse_part-ne-stuck checks (c ∷ cs) safe e = elim (Bool-cases (contains (c ∷ cs) b':')) [
  | inl ranged ↦ parse_range-ne-stuck checks (split b':' (c ∷ cs)) safe (ground (arith, ranged))
  | inr single ↦
      let (id, found, rest) =
        or_err->>=-eq-stuck bad_id (parse_usize (c ∷ cs)) (λ (id : ℕ). ok (id ∷ []))
          (ground (arith, single)) in
      cc
]

Lists-of_ok :
    (checks : Bool) (input ids : List ℕ)
    → (checks ≡ true) ⊎ Fits (split b',' input)
    → parse_task_ids checks input ≡ ok ids
    → Lists input (ok ids)
unfolding parse_task_ids
Lists-of_ok checks input ids safe e = elim (Bool-cases (is_empty (trim input))) [
  | inl blank ↦
      let nothing : ids ≡ [] = ground (arith, blank) in
      (subst (λ l. Grows 0 l) (sym nothing) tt, inl (blank, nothing))
  | inr text ↦
      let found : parse_parts checks (split b',' input) [] ≡ ok ids = ground (arith, text) in
      (
        parse_parts-Grows checks (split b',' input) [] ids tt found,
        inr (λ x. ground (arith, In-parse_parts checks (split b',' input) [] ids x safe found)),
      )
]

parse_parts-ne-stuck :
    (checks : Bool) (parts : List (List ℕ)) (ids : List ℕ)
    → (checks ≡ true) ⊎ Fits parts
    → parse_parts checks parts ids ≢ stuck
unfolding parse_parts
parse_parts-ne-stuck checks [] ids safe e = cc
parse_parts-ne-stuck checks (part ∷ parts) ids safe e =
    elim (>>=-eq-stuck (parse_part checks (trim part)) _ e) [
      | inl first ↦ parse_part-ne-stuck checks (trim part) (first_safe checks part parts safe) first
      | inr (added, found, rest) ↦
          parse_parts-ne-stuck checks parts (extend added ids) (rest_safe checks part parts safe)
            rest
    ]

-- In a build with overflow checks, or if each range with a step ends a step below the greatest
-- `usize`, the parse ends: with an error, where an overflow panics, or with a result. A blank
-- input gives no ids; any other that parses gives the ids that its parts name, each once, in
-- ascending order.
pub parse_task_ids-Lists :
    (checks : Bool) (input : List ℕ)
    → (checks ≡ true) ⊎ Fits (split b',' input)
    → Lists input (parse_task_ids checks input)
parse_task_ids-Lists checks input safe = elim (Result-cases (parse_task_ids checks input)) [
  | inl (ids, found) ↦
      subst (λ m. Lists input m) (sym found) (Lists-of_ok checks input ids safe found)
  | inr (inl (e, found)) ↦ subst (λ m. Lists input m) (sym found) tt
  | inr (inr found) ↦ absurd (
      unfold parse_task_ids in
      ground (arith, found, parse_parts-ne-stuck checks (split b',' input) [] safe))
]
