-- ===== src/Update/Search.antt =====
-- src/update.rs: the search for a binary ends, and finds one exactly where there is one.
use wakezilla.Prelude.{
  Bool-cases, codes_eq, eq_of_codes_eq, codes_eq_refl, ℕ, ◌≡◌, ◌⊎◌, inl, inr, true, Option, none,
  some, List, arith,
}
use wakezilla.Update.Files.{Trees, file_or, direct, empty, leaf, folder, link, broken}

-- An entry of which `P` holds, at any depth: `P` is of the entries from it on.
pub data Within (P : Trees → Type 0) : Trees → Type 0 where
  here : {dir : Trees} → P dir → Within P dir
  after_leaf :
      {name contents : List ℕ} {rest : Trees} → Within P rest → Within P (leaf name contents rest)
  inside : {name : List ℕ} {inner rest : Trees} → Within P inner → Within P (folder name inner rest)
  after_folder :
      {name : List ℕ} {inner rest : Trees} → Within P rest → Within P (folder name inner rest)
  after_link :
      {name : List ℕ} {target : Option (List ℕ)} {rest : Trees}
      → Within P rest
      → Within P (link name target rest)
  after_broken : {rest : Trees} → Within P rest → Within P (broken rest)

-- A file of the name with these contents.
abbrev pub IsNamed : (bin_name contents : List ℕ) → Trees → Type 0
IsNamed bin_name contents (leaf name own rest) = (name ≡ bin_name) × (own ≡ contents)
IsNamed bin_name contents _ = ⊥

abbrev pub Occurs : (bin_name contents : List ℕ) → Trees → Type 0
Occurs bin_name contents = Within (IsNamed bin_name contents)

-- An entry that cannot be read.
abbrev pub IsBroken : Trees → Type 0
IsBroken (broken rest) = Unit {0}
IsBroken _ = ⊥

-- The directory itself has a link of the name to a file with these contents.
abbrev pub Linked : (bin_name contents : List ℕ) → Trees → Type 0
Linked bin_name contents empty = ⊥
Linked bin_name contents (leaf name own rest) = Linked bin_name contents rest
Linked bin_name contents (folder name inner rest) = Linked bin_name contents rest
Linked bin_name contents (link name target rest) =
    ((name ≡ bin_name) × (target ≡ some contents)) ⊎ Linked bin_name contents rest
Linked bin_name contents (broken rest) = Linked bin_name contents rest

pub direct-Occurs :
    (bin_name : List ℕ) (dir : Trees) (c : List ℕ)
    → direct bin_name dir ≡ some c
    → Occurs bin_name c dir ⊎ Linked bin_name c dir
unfolding direct file_or
direct-Occurs bin_name empty c h = cc
direct-Occurs bin_name (leaf name contents rest) c h = elim (Bool-cases (codes_eq name bin_name)) [
  | inl same ↦
      let e : contents ≡ c = ground (arith, rw same at h) in
      inl (here (eq_of_codes_eq name bin_name same, e))
  | inr other ↦ elim (direct-Occurs bin_name rest c (rw other at h)) [
    | inl o ↦ inl (after_leaf o)
    | inr l ↦ inr l
  ]
]
direct-Occurs bin_name (folder name inner rest) c h = elim (direct-Occurs bin_name rest c h) [
  | inl o ↦ inl (after_folder o)
  | inr l ↦ inr l
]
direct-Occurs bin_name (broken rest) c h = elim (direct-Occurs bin_name rest c h) [
  | inl o ↦ inl (after_broken o)
  | inr l ↦ inr l
]
direct-Occurs bin_name (link name none rest) c h =
    let e : direct bin_name rest ≡ some c = elim (Bool-cases (codes_eq name bin_name)) [
      | inl same ↦ rw same at h
      | inr other ↦ rw other at h
    ] in
    elim (direct-Occurs bin_name rest c e) [ inl o ↦ inl (after_link o) | inr l ↦ inr (inr l) ]
direct-Occurs bin_name (link name (some t) rest) c h = elim (Bool-cases (codes_eq name bin_name)) [
  | inl same ↦ inr (inl (eq_of_codes_eq name bin_name same, rw same at h))
  | inr other ↦ elim (direct-Occurs bin_name rest c (rw other at h)) [
    | inl o ↦ inl (after_link o)
    | inr l ↦ inr (inr l)
  ]
]

-- Where the directory itself has no file of the name, it has no link to one.
pub direct-Linked :
    (bin_name : List ℕ) (dir : Trees) (c : List ℕ)
    → direct bin_name dir ≡ none
    → ¬ (Linked bin_name c dir)
unfolding direct file_or
direct-Linked bin_name empty c h l = l
direct-Linked bin_name (leaf name contents rest) c h l =
    elim (Bool-cases (codes_eq name bin_name)) [
      | inl same ↦ absurd (ground (arith, rw same at h))
      | inr other ↦ direct-Linked bin_name rest c (rw other at h) l
    ]
direct-Linked bin_name (folder name inner rest) c h l = direct-Linked bin_name rest c h l
direct-Linked bin_name (broken rest) c h l = direct-Linked bin_name rest c h l
direct-Linked bin_name (link name none rest) c h (inl (e, t)) = absurd (ground (arith, t))
direct-Linked bin_name (link name (some t) rest) c h (inl (e, q)) =
    let same : codes_eq name bin_name ≡ true = rw e (codes_eq_refl bin_name) in
    absurd (ground (arith, rw same at h))
direct-Linked bin_name (link name none rest) c h (inr l) =
    let e : direct bin_name rest ≡ none = elim (Bool-cases (codes_eq name bin_name)) [
      | inl same ↦ rw same at h
      | inr other ↦ rw other at h
    ] in
    direct-Linked bin_name rest c e l
direct-Linked bin_name (link name (some t) rest) c h (inr l) =
    elim (Bool-cases (codes_eq name bin_name)) [
      | inl same ↦ absurd (ground (arith, rw same at h))
      | inr other ↦ direct-Linked bin_name rest c (rw other at h) l
    ]
