-- ===== src/Client/TaskIds/Ranges.antt =====
-- The ids of a range.
use pueue.Base.{
  ℕ, zero, suc, ◌+◌, ◌*◌, ◌≤◌, ◌<◌, ◌≡◌, ◌≢◌, ◌⊎◌, inl, inr, List, [], ◌∷◌, In, ltb, leb, Bool,
  true, false, refl, ◌∙◌, ok_injective, >>=-eq-ok, >>=-eq-stuck, Bool-cases, subst, sym, ok, err,
  stuck, arith, nat_ord,
}
use pueue.Client.Numbers.{usize_limit}
use pueue.Client.TaskIds.{overflows, count_up, advance, overflows_at, step_loop}
use native.Mathlib.Nat.{mod-lt, mod-eq_of_lt}
use pueue.Base.Results.{◌>>=◌}

pub In-count_up : (n start x : ℕ) → In x (count_up start n) → (start ≤ x) × (x < start + n)
unfolding count_up
In-count_up zero start x m = absurd m
In-count_up (suc n) start x m = ground (arith, In-count_up n (start + 1) x)

pub count_up-In : (n start x : ℕ) → start ≤ x → x < start + n → In x (count_up start n)
unfolding count_up
count_up-In zero start x low high = absurd (omega arith)
count_up-In (suc n) start x low high = ground (arith, count_up-In n (start + 1) x)

times_suc : (k step : ℕ) → suc k * step ≡ step + k * step
times_suc k step = ground arith

-- A step of the range: some whole number of steps from its start, and not beyond its end.
abbrev pub IsStep : (step end current x : ℕ) → Type 0
IsStep step end current x = (k : ℕ) × (x ≡ current + k * step) × (x ≤ end)

-- No addition leaves `usize` unnoticed.
abbrev pub IsSafe : (overflow_checks : Bool) → (step end : ℕ) → Type 0
IsSafe checks step end = (checks ≡ true) ⊎ (end + step < usize_limit)

advance-eq :
    (current step : ℕ) → current + step < usize_limit → advance current step ≡ current + step
unfolding advance
advance-eq current step fits = mod-eq_of_lt fits

advance-lt : (current step : ℕ) → advance current step < usize_limit
unfolding advance
advance-lt current step = mod-lt (current + step) (omega arith)

-- A round that does not panic advances without wrapping.
safe_advance :
    (checks : Bool) (step end current : ℕ)
    → IsSafe checks step end
    → current ≤ end
    → overflows_at checks current step ≡ false
    → advance current step ≡ current + step
safe_advance checks step end current (inl checked) below quiet =
    advance-eq current step (ground (arith, checked, quiet))
safe_advance checks step end current (inr fits) below quiet = advance-eq current step (omega arith)

-- A round within the range that does not panic.
step_loop-next :
    (checks : Bool) (fuel step end current : ℕ)
    → current ≤ end
    → overflows_at checks current step ≡ false
    → step_loop checks (suc fuel) step end current
      ≡ (step_loop checks fuel step end (advance current step) >>= (λ rest. ok (current ∷ rest)))
unfolding step_loop
step_loop-next checks fuel step end current below quiet =
    let inside : leb current end ≡ true = ground arith in rw (inside, step_loop, quiet) refl

-- What a step of the loop returns.
step_loop-eq-ok :
    (checks : Bool) (fuel step end current : ℕ) (ids : List ℕ)
    → IsSafe checks step end
    → step_loop checks (suc fuel) step end current ≡ ok ids
    → ((end < current) × (ids ≡ []))
      ⊎ ((rest : List ℕ) × (current ≤ end)
          × (step_loop checks fuel step end (current + step) ≡ ok rest)
          × (ids ≡ current ∷ rest))
unfolding step_loop
step_loop-eq-ok checks fuel step end current ids safe e = elim (Bool-cases (leb current end)) [
  | inr above ↦ inl (ground (arith, above), ground (arith, above))
  | inl below ↦ elim (Bool-cases (overflows_at checks current step)) [
    | inl leaves ↦ absurd (ground (arith, below, leaves))
    | inr quiet ↦
        let inside : current ≤ end = ground (arith, below) in
        let next = safe_advance checks step end current safe inside quiet in
        let e' = sym (step_loop-next checks fuel step end current inside quiet) ∙ e in
        let (rest, found, shape) =
          >>=-eq-ok (step_loop checks fuel step end (advance current step)) _ e' in
        inr (
          rest,
          ground (arith, below),
          subst (λ c. step_loop checks fuel step end c ≡ ok rest) next found,
          sym (ok_injective shape),
        )
  ]
]

zero_fuel :
    (checks : Bool) (step end current : ℕ) (ids : List ℕ)
    → step_loop checks zero step end current ≡ ok ids
    → (end < current) × (ids ≡ [])
unfolding step_loop
zero_fuel checks step end current ids e = (ground arith, ground arith)

pub In-step_loop :
    (checks : Bool) (fuel step end current x : ℕ) (ids : List ℕ)
    → IsSafe checks step end
    → step_loop checks fuel step end current ≡ ok ids
    → In x ids
    → IsStep step end current x
In-step_loop checks zero step end current x ids safe e m =
    absurd (subst (λ l. In x l) (zero_fuel checks step end current ids e).1 m)
In-step_loop checks (suc fuel) step end current x ids safe e m =
    elim (step_loop-eq-ok checks fuel step end current ids safe e) [
      | inl (above, nothing) ↦ absurd (subst (λ l. In x l) nothing m)
      | inr (rest, below, found, shape) ↦ elim (subst (λ l. In x l) shape m) [
        | inl first ↦ (0, omega arith, omega arith)
        | inr later ↦
            let (k, place, inside) =
              In-step_loop checks fuel step end (current + step) x rest safe found later in
            (suc k, omega (arith, times_suc k step), inside)
      ]
    ]

pub step_loop-In :
    (checks : Bool) (fuel step end current x : ℕ) (ids : List ℕ)
    → IsSafe checks step end
    → step_loop checks fuel step end current ≡ ok ids
    → IsStep step end current x
    → In x ids
step_loop-In checks zero step end current x ids safe e (k, place, inside) =
    absurd (omega (arith, zero_fuel checks step end current ids e))
step_loop-In checks (suc fuel) step end current x ids safe e (zero, place, inside) =
    elim (step_loop-eq-ok checks fuel step end current ids safe e) [
      | inl (above, nothing) ↦ absurd (omega arith)
      | inr (rest, below, found, shape) ↦ subst (λ l. In x l) (sym shape) (inl (omega arith))
    ]
step_loop-In checks (suc fuel) step end current x ids safe e (suc k, place, inside) =
    elim (step_loop-eq-ok checks fuel step end current ids safe e) [
      | inl (above, nothing) ↦ absurd (omega arith)
      | inr (rest, below, found, shape) ↦
          let step_left : x ≡ current + step + k * step = omega (arith, times_suc k step) in
          subst (λ l. In x l) (sym shape)
            (inr (
              step_loop-In checks fuel step end (current + step) x rest safe found
                (k, step_left, inside)))
    ]

-- With a round for each number of the range, the loop ends or overflows.
pub step_loop-ne-stuck :
    (checks : Bool) (fuel step end current : ℕ)
    → IsSafe checks step end
    → step ≢ 0
    → end < current + fuel
    → step_loop checks fuel step end current ≢ stuck
unfolding step_loop
step_loop-ne-stuck checks zero step end current safe positive enough e = ground arith
step_loop-ne-stuck checks (suc fuel) step end current safe positive enough e =
    elim (Bool-cases (leb current end)) [
      | inr above ↦ ground (arith, above)
      | inl below ↦ elim (Bool-cases (overflows_at checks current step)) [
        | inl leaves ↦ ground (arith, below, leaves)
        | inr quiet ↦
            let inside : current ≤ end = ground (arith, below) in
            let next = safe_advance checks step end current safe inside quiet in
            let e' = sym (step_loop-next checks fuel step end current inside quiet) ∙ e in
            elim (>>=-eq-stuck (step_loop checks fuel step end (advance current step)) _ e') [
              | inl first ↦
                  step_loop-ne-stuck checks fuel step end (current + step) safe positive
                    (omega arith) (subst (λ c. step_loop checks fuel step end c ≡ stuck) next first)
              | inr (rest, found, wrong) ↦ absurd (cc wrong)
            ]
      ]
    ]

pub step_loop-overflows :
    (fuel step end current : ℕ)
    → step ≢ 0
    → end < current + fuel
    → current ≤ end
    → usize_limit ≤ end + 1
    → step_loop true fuel step end current ≡ err overflows
unfolding step_loop
step_loop-overflows zero step end current positive enough below last = absurd (omega arith)
step_loop-overflows (suc fuel) step end current positive enough below last =
    let inside : leb current end ≡ true = ground arith in
    elim (Bool-cases (ltb (current + step) usize_limit)) [
      | inl fits ↦
          let rest =
            step_loop-overflows fuel step end (current + step) positive (omega arith)
              (ground (arith, fits)) last in
          let next = advance-eq current step (ground (arith, fits)) in
          step_loop-next true fuel step end current below (ground (arith, fits))
          ∙ rw (next, rest) refl
      | inr leaves ↦ rw (inside, step_loop, leaves) refl
    ]

-- In a build without overflow checks, the loop of a range whose end is the greatest `usize` goes
-- on for any number of rounds.
pub step_loop-goes_on :
    (fuel step end current : ℕ)
    → end + 1 ≡ usize_limit
    → current < usize_limit
    → step_loop false fuel step end current ≡ stuck
unfolding step_loop
step_loop-goes_on zero step end current last low =
    let inside : leb current end ≡ true = ground arith in rw inside refl
step_loop-goes_on (suc fuel) step end current last low =
    let rest =
      step_loop-goes_on fuel step end (advance current step) last (advance-lt current step) in
    step_loop-next false fuel step end current (omega arith) refl ∙ rw rest refl
