-- ===== src/Dashboard/Counts.antt =====
-- frontend/src/components/dashboard/history.rs: a bucket counts what it should.
use wakezilla.Prelude.{
  ◌==◌, if◌then◌else◌, ==_iff, Bool-cases, length, replicate, ℤ, ℕ, zero, suc, ◌+◌, ◌<◌, String,
  ◌≡◌, refl, ap, ◌∙◌, inl, inr, Bool, true, false, List, [], ◌∷◌, arith,
}
use wakezilla.Dashboard.{
  int_eq, int_lt, period_of, bucket_start, Buckets, count_access, count_service, count_services,
  bucket_history,
}
use wakezilla.Dashboard.Entries.{
  counted, instants, expected, IsSized, add_at-length, replicate-length, one_if,
  counted-count_access,
}

none_if : (there : Bool) (n : ℕ) → n ≡ (if there then 0 else 0) + n
none_if true n = omega arith
none_if false n = omega arith

one_more :
    (here there : Bool) (n rest : ℕ)
    → (if there then n else 0) + (one_if here there + rest)
      ≡ (if there then (if here then 1 else 0) + n else 0) + rest
one_more true true n rest = omega arith
one_more true false n rest = omega arith
one_more false true n rest = omega arith
one_more false false n rest = omega arith

count_access-IsSized :
    (services : ℕ) (start : ℤ) (index : ℕ) (buckets : Buckets)
    → IsSized services buckets
    → IsSized services (count_access services start index buckets)
unfolding count_access
count_access-IsSized services start index [] sized =
    ((add_at-length (replicate services 0) index ∙ replicate-length services), tt)
count_access-IsSized services start index ((found, counts) ∷ rest) sized =
    elim (Bool-cases (int_eq found start)) [
      | inl same ↦ rw same ((add_at-length counts index ∙ sized.0), sized.1)
      | inr other ↦ elim (Bool-cases (int_lt start found)) [
        | inl before ↦
            rw (other, before)
              ((add_at-length (replicate services 0) index ∙ replicate-length services), sized)
        | inr after ↦
            rw (other, after) (sized.0, count_access-IsSized services start index rest sized.1)
      ]
    ]

count_service-IsSized :
    (period : ℕ × ℕ) (services index : ℕ) (timestamps : List ℤ) (buckets : Buckets)
    → IsSized services buckets
    → IsSized services (count_service period services index timestamps buckets)
unfolding count_service
count_service-IsSized period services index [] buckets sized = sized
count_service-IsSized period services index (t ∷ timestamps) buckets sized =
    count_service-IsSized period services index timestamps _
      (count_access-IsSized services (bucket_start period t) index buckets sized)

-- The instants of the service that are counted, if it is the one asked for.
counted-count_service :
    (period : ℕ × ℕ) (services : ℕ) (key : ℤ) (index j : ℕ) (timestamps : List ℤ)
    (buckets : Buckets)
    → index < services
    → IsSized services buckets
    → counted key j (count_service period services index timestamps buckets)
      ≡ (if index == j then instants period key timestamps else 0) + counted key j buckets
unfolding count_service instants
counted-count_service period services key index j [] buckets h sized =
    none_if (index == j) (counted key j buckets)
counted-count_service period services key index j (t ∷ timestamps) buckets h sized =
    let start = bucket_start period t in
    let one = counted-count_access services start key index j buckets h sized in
    let next =
      counted-count_service period services key index j timestamps
        (count_access services start index buckets) h
        (count_access-IsSized services start index buckets sized) in
    next
    ∙ ap (λ n. (if index == j then instants period key timestamps else 0) + n) one
    ∙ one_more (int_eq start key) (index == j) (instants period key timestamps) _

counted-earlier :
    (period : ℕ × ℕ) (services : ℕ) (key : ℤ) (index j : ℕ) (histories : List (List ℤ))
    (buckets : Buckets)
    → j < index
    → index + length histories ≡ services
    → IsSized services buckets
    → counted key j (count_services period services index histories buckets) ≡ counted key j buckets
unfolding count_services
counted-earlier period services key index j [] buckets before size sized = refl
counted-earlier period services key index j (timestamps ∷ histories) buckets before size sized =
    let h : index < services = omega (arith, size) in
    let rest =
      counted-earlier period services key (suc index) j histories
        (count_service period services index timestamps buckets) (omega arith) (omega (arith, size))
        (count_service-IsSized period services index timestamps buckets sized) in
    let here = counted-count_service period services key index j timestamps buckets h sized in
    rest ∙ here ∙ elim (Bool-cases (index == j)) [
      | inl same ↦ absurd (omega (arith, (==_iff index j).0 same))
      | inr other ↦ rw other (omega arith)
    ]

counted-count_services :
    (period : ℕ × ℕ) (services : ℕ) (key : ℤ) (index k j : ℕ) (histories : List (List ℤ))
    (buckets : Buckets)
    → index + k ≡ j
    → index + length histories ≡ services
    → IsSized services buckets
    → counted key j (count_services period services index histories buckets)
      ≡ expected period key k histories + counted key j buckets
unfolding count_services expected
counted-count_services period services key index k j [] buckets place size sized = omega arith
counted-count_services period services key index zero j (timestamps ∷ histories) buckets place size
      sized =
    let h : index < services = omega (arith, size) in
    let rest =
      counted-earlier period services key (suc index) j histories
        (count_service period services index timestamps buckets) (omega (arith, place))
        (omega (arith, size))
        (count_service-IsSized period services index timestamps buckets sized) in
    let here = counted-count_service period services key index j timestamps buckets h sized in
    rest ∙ here ∙ rw ((==_iff index j).1 (omega (arith, place))) refl
counted-count_services period services key index (suc k) j (timestamps ∷ histories) buckets place
      size sized =
    let h : index < services = omega (arith, size) in
    let rest =
      counted-count_services period services key (suc index) k j histories
        (count_service period services index timestamps buckets) (omega (arith, place))
        (omega (arith, size))
        (count_service-IsSized period services index timestamps buckets sized) in
    let here = counted-count_service period services key index j timestamps buckets h sized in
    elim (Bool-cases (index == j)) [
      | inl same ↦ absurd (omega (arith, place, (==_iff index j).0 same))
      | inr other ↦
          let kept : counted key j (count_service period services index timestamps buckets)
              ≡ counted key j buckets =
            here ∙ rw other (omega arith) in
          omega (arith, rest, kept)
    ]

empty : (start : ℤ) (index : ℕ) → counted start index [] ≡ 0
unfolding counted
empty start index = refl

-- For every period, start and index, the counts at the index in the buckets of the start add up
-- to the number of the instants of that service whose bucket starts there.
pub bucket_history-counted :
    (histories : List (List ℤ)) (period : String) (start : ℤ) (index : ℕ)
    → counted start index (bucket_history histories period)
      ≡ expected (period_of period) start index histories
unfolding bucket_history
bucket_history-counted histories period start index =
    let total =
      counted-count_services (period_of period) (length histories) start 0 index index histories []
        (omega arith) (omega arith) tt in
    let nothing = empty start index in total ∙ omega (arith, nothing)
