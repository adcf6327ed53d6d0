-- ===== src/Dashboard.antt =====
-- frontend/src/components/dashboard/history.rs: the buckets of the access history. An i64 is an
-- integer, and the computation of a start does not leave its range for instants of the clock.
pub mod Entries
pub mod Counts
use wakezilla.Prelude.{
  ltb, leb, ◌==◌, if◌then◌else◌, length, replicate, str_eq, ℤ, pos, negsuc, ℕ, zero, suc, ◌+◌, ◌-◌,
  ◌*◌, ◌/◌, String, Bool, true, false, List, [], ◌∷◌,
}

unfoldable pub add_nat : ℤ → ℕ → ℤ
add_nat (pos n) k = pos (n + k)
add_nat (negsuc n) k = if ltb n k then pos (k - n - 1) else negsuc (n - k)

unfoldable pub sub_nat : ℤ → ℕ → ℤ
sub_nat (pos n) k = if leb k n then pos (n - k) else negsuc (k - n - 1)
sub_nat (negsuc n) k = negsuc (n + k)

unfoldable pub mul_nat : ℤ → ℕ → ℤ
mul_nat (pos n) k = pos (n * k)
mul_nat (negsuc n) k = if k == 0 then pos 0 else negsuc ((n + 1) * k - 1)

-- i64::div_euclid by a positive number.
unfoldable pub div_euclid : ℤ → ℕ → ℤ
div_euclid (pos n) k = pos (n / k)
div_euclid (negsuc n) k = negsuc (n / k)

unfoldable pub int_eq : ℤ → ℤ → Bool
int_eq (pos m) (pos n) = m == n
int_eq (negsuc m) (negsuc n) = m == n
int_eq (pos m) (negsuc n) = false
int_eq (negsuc m) (pos n) = false

unfoldable pub int_lt : ℤ → ℤ → Bool
int_lt (pos m) (pos n) = ltb m n
int_lt (negsuc m) (negsuc n) = ltb n m
int_lt (pos m) (negsuc n) = false
int_lt (negsuc m) (pos n) = true

abbrev pub hour : ℕ
hour = 3600000

-- The width of a bucket, and the offset of the first one.
unfoldable pub period_of : (period : String) → ℕ × ℕ
period_of period =
    if str_eq period "hour"
    then (hour, 0)
    else if str_eq period "week"
    then (7 * 24 * hour, 3 * 24 * hour)
    else (24 * hour, 0)

unfoldable pub bucket_start : ℕ × ℕ → (timestamp : ℤ) → ℤ
unfolding add_nat sub_nat mul_nat div_euclid
bucket_start (width, offset) timestamp =
    sub_nat (mul_nat (div_euclid (add_nat timestamp offset) width) width) offset

unfoldable pub add_at : List ℕ → (index : ℕ) → List ℕ
add_at [] index = []
add_at (c ∷ counts) zero = suc c ∷ counts
add_at (c ∷ counts) (suc index) = c ∷ add_at counts index

abbrev pub Buckets : Type 0
Buckets = List (ℤ × List ℕ)

-- The entry of a start in the ordered map, made of zeros if it is missing, counts one more.
unfoldable pub count_access : (services : ℕ) → (start : ℤ) → (index : ℕ) → Buckets → Buckets
unfolding add_at int_eq int_lt
count_access services start index [] = (start, add_at (replicate services 0) index) ∷ []
count_access services start index ((found, counts) ∷ rest) =
    if int_eq found start
    then (found, add_at counts index) ∷ rest
    else if int_lt start found
    then (start, add_at (replicate services 0) index) ∷ (found, counts) ∷ rest
    else (found, counts) ∷ count_access services start index rest

unfoldable pub count_service :
    ℕ × ℕ → (services index : ℕ) → (timestamps : List ℤ) → Buckets → Buckets
unfolding bucket_start count_access
count_service period services index [] buckets = buckets
count_service period services index (t ∷ timestamps) buckets =
    count_service period services index timestamps
      (count_access services (bucket_start period t) index buckets)

unfoldable pub count_services :
    ℕ × ℕ → (services index : ℕ) → (histories : List (List ℤ)) → Buckets → Buckets
unfolding count_service
count_services period services index [] buckets = buckets
count_services period services index (timestamps ∷ histories) buckets =
    count_services period services (suc index) histories
      (count_service period services index timestamps buckets)

-- bucket_history of the timestamps of each service.
unfoldable pub bucket_history : (histories : List (List ℤ)) (period : String) → Buckets
unfolding period_of count_services
bucket_history histories period =
    count_services (period_of period) (length histories) 0 histories []
