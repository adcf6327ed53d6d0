-- ===== src/Dashboard/Entries.antt =====
-- frontend/src/components/dashboard/history.rs: what an access changes in the entries of the buckets.
use wakezilla.Prelude.{
  ◌==◌, if◌then◌else◌, ==_iff, Bool-cases, length, replicate, ℤ, pos, negsuc, ℕ, zero, suc, ◌+◌,
  ◌<◌, ◌≡◌, refl, ap, inl, inr, Bool, true, false, List, [], ◌∷◌, arith,
}
use wakezilla.Dashboard.{int_eq, int_lt, bucket_start, add_at, Buckets, count_access}

abbrev pub at : List ℕ → ℕ → ℕ
at [] i = 0
at (c ∷ counts) zero = c
at (c ∷ counts) (suc i) = at counts i

-- What the buckets of a start count for a service.
unfoldable pub counted : ℤ → (index : ℕ) → Buckets → ℕ
unfolding int_eq
counted start index [] = 0
counted start index ((found, counts) ∷ rest) =
    (if int_eq found start then at counts index else 0) + counted start index rest

-- The instants of a service that belong to a start.
unfoldable pub instants : ℕ × ℕ → ℤ → List ℤ → ℕ
unfolding bucket_start int_eq
instants period start [] = 0
instants period start (t ∷ timestamps) =
    (if int_eq (bucket_start period t) start then 1 else 0) + instants period start timestamps

-- Those of the service at an index of the list.
unfoldable pub expected : ℕ × ℕ → ℤ → (index : ℕ) → List (List ℤ) → ℕ
unfolding instants
expected period start index [] = 0
expected period start zero (timestamps ∷ histories) = instants period start timestamps
expected period start (suc index) (timestamps ∷ histories) = expected period start index histories

abbrev pub IsSized : ℕ → Buckets → Type 0
IsSized services [] = Unit {0}
IsSized services ((found, counts) ∷ rest) = (length counts ≡ services) × IsSized services rest

pub add_at-length : (counts : List ℕ) (i : ℕ) → length (add_at counts i) ≡ length counts
unfolding add_at
add_at-length [] i = refl
add_at-length (c ∷ counts) zero = refl
add_at-length (c ∷ counts) (suc i) = ap suc (add_at-length counts i)

at-add_at :
    (counts : List ℕ) (i j : ℕ)
    → i < length counts
    → at (add_at counts i) j ≡ (if i == j then 1 else 0) + at counts j
unfolding add_at
at-add_at [] i j h = absurd (omega arith)
at-add_at (c ∷ counts) zero zero h = omega arith
at-add_at (c ∷ counts) zero (suc j) h = ground arith
at-add_at (c ∷ counts) (suc i) zero h = ground arith
at-add_at (c ∷ counts) (suc i) (suc j) h = ground (arith, at-add_at counts i j)

pub replicate-length : (n : ℕ) → length {A = ℕ} (replicate n 0) ≡ n
replicate-length zero = refl
replicate-length (suc n) = ap suc (replicate-length n)

at-replicate : (n j : ℕ) → at (replicate n 0) j ≡ 0
at-replicate zero j = refl
at-replicate (suc n) zero = refl
at-replicate (suc n) (suc j) = at-replicate n j

int_eq-eq : (a b : ℤ) → int_eq a b ≡ true → a ≡ b
unfolding int_eq
int_eq-eq (pos m) (pos n) h = ap pos ((==_iff m n).0 h)
int_eq-eq (negsuc m) (negsuc n) h = ap negsuc ((==_iff m n).0 h)
int_eq-eq (pos m) (negsuc n) h = cc
int_eq-eq (negsuc m) (pos n) h = cc

-- One more, if the start and the index are those asked for.
abbrev pub one_if : Bool → Bool → ℕ
one_if here there = if here then if there then 1 else 0 else 0

fresh_entry :
    (services : ℕ) (start key : ℤ) (index j : ℕ) (rest : ℕ)
    → index < services
    → (if int_eq start key then at (add_at (replicate services 0) index) j else 0) + rest
      ≡ one_if (int_eq start key) (index == j) + rest
fresh_entry services start key index j rest h =
    let size = replicate-length services in
    let e = at-add_at (replicate services 0) index j (omega (arith, size)) in
    let z = at-replicate services j in
    elim (Bool-cases (int_eq start key)) [
      | inl same ↦ rw same (omega (arith, e, z))
      | inr other ↦ rw other refl
    ]

touched_entry :
    (counts : List ℕ) (here : Bool) (index j rest : ℕ)
    → index < length counts
    → (if here then at (add_at counts index) j else 0) + rest
      ≡ one_if here (index == j) + ((if here then at counts j else 0) + rest)
touched_entry counts true index j rest h = omega (arith, at-add_at counts index j h)
touched_entry counts false index j rest h = omega arith

pub counted-count_access :
    (services : ℕ) (start key : ℤ) (index j : ℕ) (buckets : Buckets)
    → index < services
    → IsSized services buckets
    → counted key j (count_access services start index buckets)
      ≡ one_if (int_eq start key) (index == j) + counted key j buckets
unfolding counted count_access
counted-count_access services start key index j [] h sized =
    fresh_entry services start key index j 0 h
counted-count_access services start key index j ((found, counts) ∷ rest) h sized =
    elim (Bool-cases (int_eq found start)) [
      | inl same ↦
          rw (same, int_eq-eq found start same)
            (touched_entry counts (int_eq start key) index j (counted key j rest)
              (omega (arith, sized.0)))
      | inr other ↦ elim (Bool-cases (int_lt start found)) [
        | inl before ↦ rw (other, before) (fresh_entry services start key index j _ h)
        | inr after ↦
            rw (other, after)
              (omega (arith, counted-count_access services start key index j rest h sized.1))
      ]
    ]
