-- ===== src/AccessLog/History.antt =====
-- What the history of a service holds after connections have been recorded.
use wakezilla.Prelude.{
  ltb, ◌==◌, if◌then◌else◌, Bool-cases, length, drop, str_eq, lookup-insert, ℤ, ℕ, suc, ◌-◌, ◌≤◌,
  String, ◌≡◌, sym, ◌∙◌, inl, inr, List, [], ◌∷◌, ◌++◌, arith, length-append, length-drop, zero,
  ◌+◌, refl, ap, ◌≢◌, append-nil, append_assoc, eq_iff, false, eq_refl,
}
use wakezilla.AccessLog.{AccessLog, get, record_access}
use wakezilla.AccessLog.{pop_excess}

-- The last `n` elements.
abbrev pub last {ℓ} : {A : Type ℓ} → ℕ → List A → List A
last n xs = drop (length xs - n) xs

last-cons {ℓ} :
    {A : Type ℓ} (n : ℕ) (x : A) (xs : List A) → n ≤ length xs → last n (x ∷ xs) ≡ last n xs
last-cons n x xs h = let e : suc (length xs) - n ≡ suc (length xs - n) = omega arith in rw e

last_all {ℓ} : {A : Type ℓ} (n : ℕ) (xs : List A) → length xs ≤ n → last n xs ≡ xs
last_all n xs h = let e : length xs - n ≡ 0 = omega arith in rw e

pop_excess-eq-last : (n : ℕ) (buf : List ℤ) → pop_excess n buf ≡ last n buf
unfolding pop_excess
pop_excess-eq-last n [] = sym (last_all n [] (omega arith))
pop_excess-eq-last n (t ∷ buf) = elim (Bool-cases (ltb n (length (t ∷ buf)))) [
  | inl over ↦ rw over (pop_excess-eq-last n buf ∙ sym (last-cons n t buf (ground arith)))
  | inr fits ↦ rw fits (sym (last_all n (t ∷ buf) (ground arith)))
]

-- Recording a connection of one service leaves, for that service, the newest `max_records` of its
-- old connections and the new one, oldest first, and changes no other service. A limit of zero
-- records nothing.
pub get-record_access :
    (log : AccessLog) (key j : String) (ts : ℤ)
    → get (record_access log key ts) j ≡ (
        if log.max_records == 0
        then get log j
        else if str_eq key j
        then last log.max_records (get log key ++ ts ∷ [])
        else get log j)
unfolding record_access
get-record_access log key j ts = elim (Bool-cases (log.max_records == 0)) [
  | inl off ↦ rw off
  | inr on ↦ rw on (
      simp (lookup-insert, pop_excess-eq-last)
        (elim (Bool-cases (str_eq key j)) [ inl same ↦ rw same | inr other ↦ rw other ]))
]

drop-append_le {ℓ} :
    {A : Type ℓ} (k : ℕ) (xs ys : List A) → k ≤ length xs → drop k (xs ++ ys) ≡ drop k xs ++ ys
drop-append_le zero xs ys h = refl
drop-append_le (suc k) [] ys h = absurd (omega arith)
drop-append_le (suc k) (x ∷ xs) ys h = drop-append_le k xs ys (omega arith)

drop-nil {ℓ} : {A : Type ℓ} (k : ℕ) → drop {A = A} k [] ≡ []
drop-nil zero = refl
drop-nil (suc k) = refl

drop-drop {ℓ} : {A : Type ℓ} (a b : ℕ) (xs : List A) → drop a (drop b xs) ≡ drop (b + a) xs
drop-drop a zero xs = let e : 0 + a ≡ a = omega arith in rw e
drop-drop a (suc b) [] = drop-nil a ∙ sym (drop-nil (suc b + a))
drop-drop a (suc b) (x ∷ xs) =
    let e : suc b + a ≡ suc (b + a) = omega arith in rw e (drop-drop a b xs)

-- Cutting before more is appended does not change what the last cut keeps.
last-last-append {ℓ} :
    {A : Type ℓ} (n : ℕ) (xs ys : List A) → last n (last n xs ++ ys) ≡ last n (xs ++ ys)
last-last-append n xs ys =
    let k = length xs - n in
    let cut : drop k xs ++ ys ≡ drop k (xs ++ ys) = sym (drop-append_le k xs ys (omega arith)) in
    rw (cut, length-drop, drop-drop, length-append) (ap (λ m. drop m (xs ++ ys)) (omega arith))

abbrev pub Event : Type 0
Event = String × ℤ

-- The forwarders record one connection after another, each for its service.
unfoldable pub record_all : AccessLog → List Event → AccessLog
record_all log [] = log
record_all log ((key, ts) ∷ events) = record_all (record_access log key ts) events

-- The timestamps of one service among the events.
pub times_of : String → List Event → List ℤ
times_of j [] = []
times_of j ((key, ts) ∷ events) =
    let rest = times_of j events in if str_eq key j then ts ∷ rest else rest

max_records-record_access :
    (log : AccessLog) (key : String) (ts : ℤ)
    → (record_access log key ts).max_records ≡ log.max_records
unfolding record_access
max_records-record_access log key ts = ground arith

length-last {ℓ} : {A : Type ℓ} (n : ℕ) (xs : List A) → length (last n xs) ≤ n
length-last n xs = omega (arith, length-drop (length xs - n) xs)

append-cons {ℓ} : {A : Type ℓ} (xs ys : List A) (y : A) → (xs ++ y ∷ []) ++ ys ≡ xs ++ y ∷ ys
append-cons xs ys y = append_assoc xs (y ∷ []) ys

length-get-record_access :
    (log : AccessLog) (key j : String) (ts : ℤ)
    → length (get log j) ≤ log.max_records
    → length (get (record_access log key ts) j) ≤ log.max_records
length-get-record_access log key j ts h =
    rw get-record_access (ground (arith, length-last log.max_records (get log key ++ ts ∷ [])))

record_access_step :
    (limit : ℕ) (log : AccessLog) (key j : String) (ts : ℤ) (rest : List ℤ)
    → log.max_records ≡ limit
    → limit ≢ 0
    → last limit (get (record_access log key ts) j ++ rest)
      ≡ last limit (get log j ++ (if str_eq key j then ts ∷ rest else rest))
record_access_step limit log key j ts rest same on =
    let off : (limit == 0) ≡ false = ground arith in
    elim (Bool-cases (str_eq key j)) [
      | inl hit ↦
          let k : key ≡ j = (eq_iff key j).0 hit in
          simp (get-record_access, same, off, k, eq_refl)
            (last-last-append limit (get log j ++ ts ∷ []) rest
              ∙ ap (last limit) (append-cons (get log j) rest ts))
      | inr miss ↦ simp (get-record_access, same, off, miss)
    ]

get-record_all_from :
    (limit : ℕ) (log : AccessLog) (events : List Event) (j : String)
    → log.max_records ≡ limit
    → limit ≢ 0
    → length (get log j) ≤ limit
    → get (record_all log events) j ≡ last limit (get log j ++ times_of j events)
unfolding record_all times_of
get-record_all_from limit log [] j same on fits =
    rw append-nil (sym (last_all limit (get log j) fits))
get-record_all_from limit log ((key, ts) ∷ events) j same on fits =
    get-record_all_from limit (record_access log key ts) events j
      (max_records-record_access log key ts ∙ same) on
      (omega (arith, length-get-record_access log key j ts (omega arith)))
    ∙ record_access_step limit log key j ts (times_of j events) same on

-- However the connections of the services interleave, each service ends with the newest
-- `max_records` of its old history followed by its own connections in their order. The limit is not
-- zero, and the old history of the service was within the limit.
pub get-record_all :
    (log : AccessLog) (events : List Event) (j : String)
    → log.max_records ≢ 0
    → length (get log j) ≤ log.max_records
    → get (record_all log events) j ≡ last log.max_records (get log j ++ times_of j events)
get-record_all log events j on fits = get-record_all_from log.max_records log events j refl on fits
