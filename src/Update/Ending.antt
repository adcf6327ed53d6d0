-- ===== src/Update/Ending.antt =====
-- src/update.rs: the search for a binary has enough fuel, and what its end tells.
use wakezilla.Prelude.{
  Option-cases, Result, ok, err, ℕ, zero, suc, ◌+◌, ◌≤◌, ◌≡◌, ◌⊎◌, inl, inr, Option, none, some,
  List, [], ◌∷◌, arith,
}
use wakezilla.Update.Files.{
  Trees, Search, direct, scan, after_scan, search_pending, folders, find_binary_in_dir, absent,
  unread, found,
}
use wakezilla.Update.Search.{
  Within, IsNamed, Occurs, IsBroken, Linked, direct-Occurs, direct-Linked,
}
use wakezilla.Update.Pending.{Waiting, total, Scanned, scan-Scanned, first, later}

-- The end of a search over the directories that wait.
abbrev Searched : (bin_name : List ℕ) → List Trees → Option Search → Type 0
Searched bin_name pending none = ⊥
Searched bin_name pending (some absent) =
    ((c : List ℕ) → ¬ (Waiting (IsNamed bin_name c) pending)) × (¬ (Waiting IsBroken pending))
Searched bin_name pending (some unread) = Waiting IsBroken pending
Searched bin_name pending (some (found c)) = Waiting (IsNamed bin_name c) pending

first_or_waiting :
    (P : Trees → Type 0) (dir : Trees) (pending : List Trees)
    → Waiting P (dir ∷ pending)
    → Within P dir ⊎ Waiting P pending
first_or_waiting P dir pending (first o) = inl o
first_or_waiting P dir pending (later p) = inr p

either :
    (P : Trees → Type 0) (dir : Trees) (pending : List Trees)
    → Within P dir ⊎ Waiting P pending
    → Waiting P (dir ∷ pending)
either P dir pending (inl o) = first o
either P dir pending (inr q) = later q

room :
    (fuel : ℕ) (dir : Trees) (pending : List Trees) (n : ℕ)
    → total (dir ∷ pending) ≤ suc fuel
    → n ≡ folders dir + total pending
    → n ≤ fuel
unfolding total
room fuel dir pending n h e = omega (arith, h, e)

Searched-of :
    (bin_name : List ℕ) (dir : Trees) (pending waiting : List Trees) (r : Option Search)
    → Scanned bin_name dir pending (ok waiting)
    → Searched bin_name waiting r
    → Searched bin_name (dir ∷ pending) r
Searched-of bin_name dir pending waiting none moved h = h
Searched-of bin_name dir pending waiting (some absent) (size, named, broke) (no_file, no_error) = (
  λ c w. no_file c ((named c).1 (first_or_waiting (IsNamed bin_name c) dir pending w)),
  λ w. no_error (broke.1 (first_or_waiting IsBroken dir pending w)),
)
Searched-of bin_name dir pending waiting (some unread) (size, named, broke) h =
    either IsBroken dir pending (broke.0 h)
Searched-of bin_name dir pending waiting (some (found c)) (size, named, broke) h =
    either (IsNamed bin_name c) dir pending ((named c).0 h)

after_scan-Searched :
    (bin_name : List ℕ) (dir : Trees) (pending : List Trees) (r : Result (List Trees) Search)
    (next : List Trees → Option Search)
    → Scanned bin_name dir pending r
    → ((waiting : List Trees)
        → total waiting ≡ folders dir + total pending
        → Searched bin_name waiting (next waiting))
    → Searched bin_name (dir ∷ pending) (after_scan next r)
unfolding after_scan
after_scan-Searched bin_name dir pending (err absent) next h go = elim h [ ]
after_scan-Searched bin_name dir pending (err unread) next h go = first h
after_scan-Searched bin_name dir pending (err (found c)) next h go = first h
after_scan-Searched bin_name dir pending (ok waiting) next h go =
    Searched-of bin_name dir pending waiting (next waiting) h (go waiting h.0)

nothing_waits : (P : Trees → Type 0) → ¬ (Waiting P [])
nothing_waits P w = elim w [ ]

search_pending-Searched :
    (fuel : ℕ) (bin_name : List ℕ) (pending : List Trees)
    → total pending ≤ fuel
    → Searched bin_name pending (search_pending fuel bin_name pending)
unfolding search_pending
search_pending-Searched zero bin_name [] h = ((λ c. nothing_waits _), nothing_waits IsBroken)
search_pending-Searched (suc fuel) bin_name [] h = ((λ c. nothing_waits _), nothing_waits IsBroken)
search_pending-Searched zero bin_name (dir ∷ pending) h = unfold total in absurd (omega arith)
search_pending-Searched (suc fuel) bin_name (dir ∷ pending) h =
    after_scan-Searched bin_name dir pending (scan bin_name dir pending) _
      (scan-Scanned bin_name dir pending)
      (λ waiting e.
        search_pending-Searched fuel bin_name waiting (room fuel dir pending (total waiting) h e))

enough : (dir : Trees) → total (dir ∷ []) ≤ suc (folders dir)
unfolding total
enough dir = omega arith

only_dir : (P : Trees → Type 0) (dir : Trees) → Waiting P (dir ∷ []) → Within P dir
only_dir P dir (first o) = o
only_dir P dir (later p) = elim p [ ]

-- What the end of a search tells of the directory.
abbrev pub Ending : (bin_name : List ℕ) → Trees → Option Search → Type 0
Ending bin_name dir none = ⊥
Ending bin_name dir (some (found c)) = Occurs bin_name c dir ⊎ Linked bin_name c dir
Ending bin_name dir (some unread) = Within IsBroken dir × ((c : List ℕ) → ¬ (Linked bin_name c dir))
Ending bin_name dir (some absent) =
    (¬ (Within IsBroken dir))
    × ((c : List ℕ) → ¬ (Occurs bin_name c dir))
    × ((c : List ℕ) → ¬ (Linked bin_name c dir))

Searched-Ending :
    (bin_name : List ℕ) (dir : Trees) (r : Option Search)
    → ((c : List ℕ) → ¬ (Linked bin_name c dir))
    → Searched bin_name (dir ∷ []) r
    → Ending bin_name dir r
Searched-Ending bin_name dir none no_link h = h
Searched-Ending bin_name dir (some absent) no_link (no_file, no_error) =
    ((λ o. no_error (first o)), (λ c o. no_file c (first o)), no_link)
Searched-Ending bin_name dir (some unread) no_link h = (only_dir IsBroken dir h, no_link)
Searched-Ending bin_name dir (some (found c)) no_link h = inl (only_dir _ dir h)

-- The search for a binary ends. The contents that it returns are those of a file of the name in the
-- directory or below it, or of a file that a link of the name in the directory itself leads to. It
-- fails only if an entry cannot be read and there is no such link, and tells that there is no binary
-- only if everything was read and there is neither such a file nor such a link.
pub find_binary_in_dir-Ending :
    (bin_name : List ℕ) (dir : Trees) → Ending bin_name dir (find_binary_in_dir bin_name dir)
unfolding find_binary_in_dir
find_binary_in_dir-Ending bin_name dir = elim (Option-cases (direct bin_name dir)) [
  | inl missing ↦
      rw (missing, find_binary_in_dir)
        (Searched-Ending bin_name dir _ (λ c. direct-Linked bin_name dir c missing)
          (search_pending-Searched (suc (folders dir)) bin_name (dir ∷ []) (enough dir)))
  | inr (c, e) ↦ rw (e, find_binary_in_dir) (direct-Occurs bin_name dir c e)
]
