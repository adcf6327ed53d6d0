-- ===== src/Service/Reachable.antt =====
-- src/service.rs: when a service counts as reachable.
use wakezilla.Prelude.{
  ltb, Bool-cases, ok, ℕ, zero, suc, ◌+◌, ◌-◌, ◌*◌, ◌≤◌, ◌≡◌, refl, ◌↔◌, inl, inr, Bool, true,
  arith, ◌==◌, ==_iff, ◌<◌, sym, ap, ◌∙◌, ◌≢◌, false,
}
use wakezilla.Service.{validate_loop, validate}

-- One of the attempts from `attempt` on reaches the port.
abbrev pub Reached : (connect : ℕ → Bool) (attempt last : ℕ) → Type 0
Reached connect attempt last = (n : ℕ) × (attempt ≤ n) × (n ≤ last) × (connect n ≡ true)

validate_loop-Reached :
    (connect : ℕ → Bool) (attempts left attempt : ℕ)
    → left + attempt ≡ attempts + 1
    → (validate_loop connect attempts left attempt).0 ≡ ok tt
    → Reached connect attempt attempts
unfolding validate_loop
validate_loop-Reached connect attempts zero attempt e h = cc
validate_loop-Reached connect attempts (suc left) attempt e h =
    elim (Bool-cases (connect attempt)) [
      | inl reached ↦ (attempt, omega arith, omega arith, reached)
      | inr refused ↦ elim (Bool-cases (ltb attempt attempts)) [
        | inl more ↦
            let (n, low, high, reached) =
              validate_loop-Reached connect attempts left (attempt + 1) (omega arith)
                (rw (refused, more) at h) in
            (n, omega arith, high, reached)
        | inr last ↦ absurd (ground (arith, rw (refused, last) at h))
      ]
    ]

true_ne_false : true ≢ false
true_ne_false h = cc

lt→ltb : (a b : ℕ) → a < b → ltb a b ≡ true
lt→ltb a b h = ground arith

later_attempt :
    (connect : ℕ → Bool) (attempt n : ℕ)
    → attempt ≤ n
    → connect attempt ≡ false
    → connect n ≡ true
    → attempt < n
later_attempt connect attempt n low refused reached = elim (Bool-cases (attempt == n)) [
  | inl same ↦
      let e : connect attempt ≡ connect n = ap connect ((==_iff attempt n).0 same) in
      absurd (true_ne_false (sym reached ∙ sym e ∙ refused))
  | inr other ↦ ground arith
]

validate_loop_complete :
    (connect : ℕ → Bool) (attempts left attempt : ℕ)
    → left + attempt ≡ attempts + 1
    → Reached connect attempt attempts
    → (validate_loop connect attempts left attempt).0 ≡ ok tt
unfolding validate_loop
validate_loop_complete connect attempts zero attempt e (n, low, high, reached) =
    absurd (omega arith)
validate_loop_complete connect attempts (suc left) attempt e (n, low, high, reached) =
    elim (Bool-cases (connect attempt)) [
      | inl now ↦ rw now refl
      | inr refused ↦
          let later : attempt < n = later_attempt connect attempt n low refused reached in
          let rest =
            validate_loop_complete connect attempts left (attempt + 1) (omega arith)
              (n, omega arith, high, reached) in
          rw (refused, lt→ltb attempt attempts (omega arith)) rest
    ]

validate_loop_paused :
    (connect : ℕ → Bool) (attempts left attempt : ℕ)
    → left + attempt ≡ attempts + 1
    → (validate_loop connect attempts left attempt).1 ≤ 500 * (left - 1)
unfolding validate_loop
validate_loop_paused connect attempts zero attempt e = omega arith
validate_loop_paused connect attempts (suc left) attempt e =
    ground (arith, validate_loop_paused connect attempts left (attempt + 1))

-- The validation of a service succeeds exactly when one of its attempts, numbered from one, reaches
-- the port, and it sleeps for at most 500 milliseconds between two attempts.
pub validate_iff :
    (connect : ℕ → Bool) (attempts : ℕ)
    → (((validate connect attempts).0 ≡ ok tt) ↔ Reached connect 1 attempts)
      × ((validate connect attempts).1 ≤ 500 * (attempts - 1))
unfolding validate
validate_iff connect attempts = (
  (
    validate_loop-Reached connect attempts attempts 1 refl,
    validate_loop_complete connect attempts attempts 1 refl,
  ),
  validate_loop_paused connect attempts attempts 1 refl,
)
