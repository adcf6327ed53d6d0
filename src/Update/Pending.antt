-- ===== src/Update/Pending.antt =====
-- src/update.rs: the directories that wait in the search for a binary, and its end.
use wakezilla.Prelude.{
  Bool-cases, codes_eq, eq_of_codes_eq, codes_eq_refl, Result, ok, err, ℕ, suc, ◌+◌, ◌≡◌, refl, ◌≢◌,
  ◌⊎◌, inl, inr, Option, List, [], ◌∷◌, arith, true, false,
}
use wakezilla.Update.Files.{
  Trees, Search, scan, folders, empty, leaf, folder, link, broken, absent, unread, found,
}
use wakezilla.Update.Search.{
  Within, IsNamed, Occurs, IsBroken, here, after_leaf, inside, after_folder, after_link,
}

-- An entry of which `P` holds is in a directory that waits.
pub data Waiting (P : Trees → Type 0) : List Trees → Type 0 where
  first : {dir : Trees} {rest : List Trees} → Within P dir → Waiting P (dir ∷ rest)
  later : {dir : Trees} {rest : List Trees} → Waiting P rest → Waiting P (dir ∷ rest)

unfoldable pub total : List Trees → ℕ
total [] = 0
total (dir ∷ pending) = suc (folders dir) + total pending

-- What is in the directory or waited is what waits now.
abbrev Moves : (Trees → Type 0) → Trees → (pending waiting : List Trees) → Type 0
Moves P dir pending waiting =
    (Waiting P waiting → Within P dir ⊎ Waiting P pending)
    × (Within P dir ⊎ Waiting P pending → Waiting P waiting)

-- What one directory leaves.
abbrev pub Scanned : (bin_name : List ℕ) → Trees → List Trees → Result (List Trees) Search → Type 0
Scanned bin_name dir pending (err absent) = ⊥
Scanned bin_name dir pending (err unread) = Within IsBroken dir
Scanned bin_name dir pending (err (found c)) = Occurs bin_name c dir
Scanned bin_name dir pending (ok waiting) =
    (total waiting ≡ folders dir + total pending)
    × ((c : List ℕ) → Moves (IsNamed bin_name c) dir pending waiting)
    × Moves IsBroken dir pending waiting

Moves-empty :
    (P : Trees → Type 0) (pending : List Trees) → ¬ (P empty) → Moves P empty pending pending
Moves-empty P pending none_here = (inr, λ x. elim x [ inl w ↦ absurd (nothing w) | inr q ↦ q ])
  where
    nothing : ¬ (Within P empty)
    nothing (here p) = none_here p

Moves-rest :
    (P : Trees → Type 0) (dir rest : Trees) (pending waiting : List Trees)
    → (Within P rest → Within P dir)
    → (Within P dir → Within P rest)
    → Moves P rest pending waiting
    → Moves P dir pending waiting
Moves-rest P dir rest pending waiting into from (sound, complete) = (
  λ w. elim (sound w) [ inl o ↦ inl (into o) | inr q ↦ inr q ],
  λ x. elim x [ inl o ↦ complete (inl (from o)) | inr q ↦ complete (inr q) ],
)

from_leaf :
    (P : Trees → Type 0) (name contents : List ℕ) (rest : Trees)
    → ¬ (P (leaf name contents rest))
    → Within P (leaf name contents rest)
    → Within P rest
from_leaf P name contents rest not_here (here p) = absurd (not_here p)
from_leaf P name contents rest not_here (after_leaf o) = o

from_link :
    (P : Trees → Type 0) (name : List ℕ) (target : Option (List ℕ)) (rest : Trees)
    → ¬ (P (link name target rest))
    → Within P (link name target rest)
    → Within P rest
from_link P name target rest not_here (here p) = absurd (not_here p)
from_link P name target rest not_here (after_link o) = o

module _ (P : Trees → Type 0) (name : List ℕ) (inner rest : Trees) where
  inner_or_waiting :
      (pending : List Trees)
      → Waiting P (inner ∷ pending)
      → Within P (folder name inner rest) ⊎ Waiting P pending
  inner_or_waiting pending (first o) = inl (inside o)
  inner_or_waiting pending (later q) = inr q

  of_folder :
      (pending : List Trees)
      → ¬ (P (folder name inner rest))
      → Within P (folder name inner rest)
      → Within P rest ⊎ Waiting P (inner ∷ pending)
  of_folder pending not_here (here p) = absurd (not_here p)
  of_folder pending not_here (inside o) = inr (first o)
  of_folder pending not_here (after_folder o) = inl o

  Moves-folder :
      (pending waiting : List Trees)
      → ¬ (P (folder name inner rest))
      → Moves P rest (inner ∷ pending) waiting
      → Moves P (folder name inner rest) pending waiting
  Moves-folder pending waiting not_here (sound, complete) = (
    λ w. elim (sound w) [ inl o ↦ inl (after_folder o) | inr q ↦ inner_or_waiting pending q ],
    λ x. elim x [
      | inl o ↦ complete (of_folder pending not_here o)
      | inr q ↦ complete (inr (later q))
    ],
  )

Scanned-leaf :
    (bin_name name contents : List ℕ) (rest : Trees) (pending : List Trees)
    (r : Result (List Trees) Search)
    → name ≢ bin_name
    → Scanned bin_name rest pending r
    → Scanned bin_name (leaf name contents rest) pending r
unfolding folders
Scanned-leaf bin_name name contents rest pending (err absent) other h = h
Scanned-leaf bin_name name contents rest pending (err unread) other h = after_leaf h
Scanned-leaf bin_name name contents rest pending (err (found c)) other h = after_leaf h
Scanned-leaf bin_name name contents rest pending (ok waiting) other (size, named, broke) = (
  size,
  λ c.
      Moves-rest (IsNamed bin_name c) (leaf name contents rest) rest pending waiting after_leaf
        (from_leaf (IsNamed bin_name c) name contents rest (λ p. other p.0)) (named c),
  Moves-rest IsBroken (leaf name contents rest) rest pending waiting after_leaf
      (from_leaf IsBroken name contents rest (λ p. p)) broke,
)

Scanned-link :
    (bin_name name : List ℕ) (target : Option (List ℕ)) (rest : Trees) (pending : List Trees)
    (r : Result (List Trees) Search)
    → Scanned bin_name rest pending r
    → Scanned bin_name (link name target rest) pending r
unfolding folders
Scanned-link bin_name name target rest pending (err absent) h = h
Scanned-link bin_name name target rest pending (err unread) h = after_link h
Scanned-link bin_name name target rest pending (err (found c)) h = after_link h
Scanned-link bin_name name target rest pending (ok waiting) (size, named, broke) = (
  size,
  λ c.
      Moves-rest (IsNamed bin_name c) (link name target rest) rest pending waiting after_link
        (from_link (IsNamed bin_name c) name target rest (λ p. p)) (named c),
  Moves-rest IsBroken (link name target rest) rest pending waiting after_link
      (from_link IsBroken name target rest (λ p. p)) broke,
)

Scanned-folder :
    (bin_name name : List ℕ) (inner rest : Trees) (pending : List Trees)
    (r : Result (List Trees) Search)
    → Scanned bin_name rest (inner ∷ pending) r
    → Scanned bin_name (folder name inner rest) pending r
unfolding folders total
Scanned-folder bin_name name inner rest pending (err absent) h = h
Scanned-folder bin_name name inner rest pending (err unread) h = after_folder h
Scanned-folder bin_name name inner rest pending (err (found c)) h = after_folder h
Scanned-folder bin_name name inner rest pending (ok waiting) (size, named, broke) = (
  omega (arith, size),
  λ c. Moves-folder (IsNamed bin_name c) name inner rest pending waiting (λ p. p) (named c),
  Moves-folder IsBroken name inner rest pending waiting (λ p. p) broke,
)

differ : (xs ys : List ℕ) → codes_eq xs ys ≡ false → xs ≢ ys
differ xs ys other e = let same : codes_eq xs ys ≡ true = rw e (codes_eq_refl ys) in cc

pub scan-Scanned :
    (bin_name : List ℕ) (dir : Trees) (pending : List Trees)
    → Scanned bin_name dir pending (scan bin_name dir pending)
unfolding scan folders
scan-Scanned bin_name empty pending = (
  omega arith,
  λ c. Moves-empty (IsNamed bin_name c) pending (λ p. p),
  Moves-empty IsBroken pending (λ p. p),
)
scan-Scanned bin_name (leaf name contents rest) pending =
    elim (Bool-cases (codes_eq name bin_name)) [
      | inl same ↦ rw (same, scan) (here (eq_of_codes_eq name bin_name same, refl))
      | inr other ↦
          let differs : name ≢ bin_name = differ name bin_name other in
          rw (other, scan)
            (Scanned-leaf bin_name name contents rest pending (scan bin_name rest pending) differs
              (scan-Scanned bin_name rest pending))
    ]
scan-Scanned bin_name (link name target rest) pending =
    Scanned-link bin_name name target rest pending (scan bin_name rest pending)
      (scan-Scanned bin_name rest pending)
scan-Scanned bin_name (broken rest) pending = here tt
scan-Scanned bin_name (folder name inner rest) pending =
    Scanned-folder bin_name name inner rest pending (scan bin_name rest (inner ∷ pending))
      (scan-Scanned bin_name rest (inner ∷ pending))
