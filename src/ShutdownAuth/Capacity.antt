-- ===== src/ShutdownAuth/Capacity.antt =====
-- How many nonces the guard keeps.
use wakezilla.Prelude.{
  ltb, leb, leb→le, Bool-cases, Option-cases, is_some, length, eq_refl, HashMap, lookup,
  length-remove-lt, length-insert_le, length-retain_le, Result, ok, err, parse_uint, ℕ, ◌-◌, ◌≤◌,
  ◌<◌, String, ◌≡◌, refl, inl, inr, true, none, some, [], ◌∷◌, arith,
}
use wakezilla.ShutdownAuth.{
  oldest, max_clock_skew, u64_max, Crypto, SignedRequestHeaders, VerifyError, ReplayGuard, new,
  abs_diff, prune, remove_oldest, check_signature, accept, verdict, verify,
}

pub record IsValid (g : ReplayGuard) : Type 0 where
  pub room : 1 ≤ g.capacity
  pub bounded : length g.seen ≤ g.capacity

pub new-IsValid : (retention capacity : ℕ) → IsValid (new retention capacity)
unfolding new
new-IsValid retention capacity = ground arith

lookup_self : (k : String) (v : ℕ) (m : HashMap ℕ) → is_some (lookup k ((k, v) ∷ m)) ≡ true
unfolding lookup
lookup_self k v m = rw eq_refl

lookup-cons :
    (k j : String) (v : ℕ) (m : HashMap ℕ)
    → is_some (lookup k m) ≡ true
    → is_some (lookup k ((j, v) ∷ m)) ≡ true
unfolding lookup
lookup-cons k j v m h = ground arith

-- The oldest entry is one of the map.
oldest-is_some :
    (m : HashMap ℕ) (k : String) (t : ℕ) → oldest m ≡ some (k, t) → is_some (lookup k m) ≡ true
unfolding oldest
oldest-is_some [] k t h = cc
oldest-is_some ((j, u) ∷ m) k t h = elim (Option-cases (oldest m)) [
  | inl none_left ↦ ground (arith, lookup_self j u m)
  | inr ((j', u'), found) ↦ elim (Bool-cases (leb u u')) [
    | inl older ↦ ground (arith, lookup_self j u m)
    | inr newer ↦
        let e : k ≡ j' = ground arith in rw e (lookup-cons j' j u m (oldest-is_some m j' u' found))
  ]
]

oldest-eq-none : (m : HashMap ℕ) → oldest m ≡ none → length m ≡ 0
unfolding oldest
oldest-eq-none [] h = refl
oldest-eq-none ((j, u) ∷ m) h = ground arith

length-remove_oldest-lt :
    (g : ReplayGuard) → 0 < length g.seen → length (remove_oldest g).seen < length g.seen
unfolding remove_oldest
length-remove_oldest-lt g h = elim (Option-cases (oldest g.seen)) [
  | inl empty ↦ absurd (omega (arith, oldest-eq-none g.seen empty))
  | inr ((k, t), found) ↦ rw found (length-remove-lt k g.seen (oldest-is_some g.seen k t found))
]

capacity-remove_oldest : (g : ReplayGuard) → (remove_oldest g).capacity ≡ g.capacity
unfolding remove_oldest
capacity-remove_oldest g = elim (Option-cases (oldest g.seen)) [
  | inl empty ↦ rw empty
  | inr ((k, t), found) ↦ rw found
]

accept-IsValid :
    (g : ReplayGuard) (nonce : String) (now : ℕ) → IsValid g → IsValid (accept g nonce now)
unfolding accept
accept-IsValid g nonce now v = elim (Bool-cases (leb g.capacity (length g.seen))) [
  | inl full ↦ rw full (record {
    room = omega (arith, capacity-remove_oldest g, v.room);
    bounded = omega (
      arith,
      capacity-remove_oldest g,
      v.room,
      v.bounded,
      leb→le _ _ full,
      length-remove_oldest-lt g (omega (arith, v.room, leb→le _ _ full)),
      length-insert_le nonce now (remove_oldest g).seen,
    );
  })
  | inr space ↦
      rw space
        (record { room = v.room; bounded = ground (arith, length-insert_le nonce now g.seen) })
]

prune-IsValid : (g : ReplayGuard) (now : ℕ) → IsValid g → IsValid (prune g now)
unfolding prune
prune-IsValid g now v = record {
  room = v.room;
  bounded = omega (
    arith,
    v.bounded,
    length-retain_le (λ _ accepted_at. leb (now - accepted_at) g.retention) g.seen,
  );
}

-- Whatever request is verified, and with whatever result, the guard remembers at most `capacity`
-- nonces afterwards, if it did before.
pub verify-IsValid :
    (c : Crypto) (g : ReplayGuard) (key method path : String) (headers : SignedRequestHeaders)
    (now : ℕ)
    → IsValid g
    → IsValid (verify c g key method path headers now).0
unfolding verify
verify-IsValid c g key method path headers now v =
    let p = prune-IsValid g now v in
    let a = accept-IsValid (prune g now) headers.nonce now p in
    elim (Option-cases (parse_uint u64_max headers.timestamp)) [
      | inl bad ↦ rw (bad, verify) v
      | inr (t, good) ↦ elim (Bool-cases (ltb max_clock_skew (abs_diff now t))) [
        | inl far ↦ rw (good, verify, far) v
        | inr near ↦ elim (Bool-cases (is_some (lookup headers.nonce (prune g now).seen))) [
          | inl old ↦ rw (good, verify, near, old) p
          | inr fresh ↦
              rw (good, verify, near, fresh) (go (check_signature c key method path headers) p a)
        ]
      ]
    ]
  where
    go :
        (r : Result (Unit {0}) VerifyError)
        → IsValid (prune g now)
        → IsValid (accept (prune g now) headers.nonce now)
        → IsValid (verdict r (prune g now) (accept (prune g now) headers.nonce now)).0
    go (ok x) p a = a
    go (err e) p a = p

capacity-accept :
    (g : ReplayGuard) (nonce : String) (now : ℕ) → (accept g nonce now).capacity ≡ g.capacity
unfolding accept
capacity-accept g nonce now = ground (arith, capacity-remove_oldest g)

-- The capacity of a guard is fixed.
pub capacity-verify :
    (c : Crypto) (g : ReplayGuard) (key method path : String) (headers : SignedRequestHeaders)
    (now : ℕ)
    → (verify c g key method path headers now).0.capacity ≡ g.capacity
unfolding verify prune
capacity-verify c g key method path headers now =
    ground (arith, capacity-accept (prune g now) headers.nonce now)
