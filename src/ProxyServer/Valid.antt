-- ===== src/ProxyServer/Valid.antt =====
-- What src/proxy_server.rs keeps true of the list of machines, and how the changes of a list keep
-- it: an element added, replaced or left out.
use wakezilla.Prelude.{
  leb, ◌==◌, if◌then◌else◌, Bool-cases, get_elem?, set, any, filter, position_from, position, All,
  All-filter, All-append, str_eq, eq_iff, codes, to_ascii_lowercase, is_blank, codes_eq,
  codes_eq_refl, ℕ, zero, suc, ◌+◌, ◌-◌, ◌≤◌, String, ◌≡◌, refl, sym, ap, ◌∙◌, subst, ◌≢◌, inl, inr,
  Bool, true, false, not, ◌&&◌, Option, none, some, List, [], ◌∷◌, ◌++◌, map, arith,
}
use wakezilla.Machine.{PortForward, Machine}
use wakezilla.Machine.MacFormat.{IsMac}
use wakezilla.ProxyServer.Validation.{replace_dash, normalized, same_mac, bad_turn_off_port}
use wakezilla.ProxyServer.Setup.{set_key, has_mac}

abbrev pub has_local : ℕ → List PortForward → Bool
has_local p services = any (λ s. p == s.local_port) services

-- No port is zero, and no two services listen on the same one.
abbrev pub ValidServices : List PortForward → Type 0
ValidServices [] = Unit
ValidServices (s ∷ services) =
    ((s.local_port == 0) ≡ false)
    × ((s.target_port == 0) ≡ false)
    × (has_local s.local_port services ≡ false)
    × ValidServices services

-- A machine that can be turned off has a client port, and a client port is not zero.
abbrev pub HasClientPort : Option ℕ → (can_be_turned_off : Bool) → Type 0
HasClientPort none can_be_turned_off = can_be_turned_off ≡ false
HasClientPort (some port) can_be_turned_off = port ≢ 0

pub bad_turn_off_port-HasClientPort :
    (port : Option ℕ) (can_be_turned_off : Bool)
    → bad_turn_off_port port can_be_turned_off ≡ false
    → HasClientPort port can_be_turned_off
unfolding bad_turn_off_port
bad_turn_off_port-HasClientPort none can_be_turned_off h = h
bad_turn_off_port-HasClientPort (some port) can_be_turned_off h = λ e. ground arith

-- A letter without its case, a dash as a colon, and any other character.
abbrev pub fold_code : ℕ → ℕ
fold_code c = if leb b'A' c && leb c b'Z' then c + 32 else if c == b'-' then b':' else c

-- An address up to the case of its letters and its separators.
abbrev pub address_of : String → List ℕ
address_of mac = map fold_code (codes mac)

folded_code : (c : ℕ) → to_ascii_lowercase (replace_dash c) ≡ fold_code c
unfolding to_ascii_lowercase
folded_code c = ground arith

folded : (cs : List ℕ) → map (λ c. to_ascii_lowercase (replace_dash c)) cs ≡ map fold_code cs
folded [] = refl
folded (c ∷ cs) = rw (folded_code c, folded cs) refl

normalized_lem : (mac : String) → normalized mac ≡ address_of mac
unfolding normalized
normalized_lem mac = folded (codes mac)

pub other_address : (a b : String) → same_mac a b ≡ false → address_of a ≢ address_of b
unfolding same_mac
other_address a b h e =
    let same : normalized a ≡ normalized b = normalized_lem a ∙ e ∙ sym (normalized_lem b) in
    let t : codes_eq (normalized a) (normalized b) ≡ true =
      rw same (codes_eq_refl (normalized b)) in
    cc

abbrev pub IsMachine : Machine → Type 0
IsMachine m =
    IsMac 5 (codes m.mac)
    × (is_blank m.name ≡ false)
    × HasClientPort m.turn_off_port m.can_be_turned_off
    × ValidServices m.port_forwards

-- Two machines have different addresses, and listen on different ports.
abbrev pub Compatible : Machine → Machine → Type 0
Compatible a b =
    (address_of a.mac ≢ address_of b.mac)
    × ((p : ℕ) → (has_local p a.port_forwards && has_local p b.port_forwards) ≡ false)

abbrev pub IsValid : List Machine → Type 0
IsValid [] = Unit
IsValid (m ∷ machines) = IsMachine m × All (Compatible m) machines × IsValid machines

pub Compatible-sym : (a b : Machine) → Compatible a b → Compatible b a
Compatible-sym a b (different, disjoint) = (
  λ e. different (sym e),
  λ p. swap (has_local p a.port_forwards) (has_local p b.port_forwards) (disjoint p),
)
  where
    swap : (x y : Bool) → (x && y) ≡ false → (y && x) ≡ false
    swap x y h = ground arith

-- Machines that are compatible have different addresses, as texts.
pub other_mac : (a b : Machine) → Compatible a b → str_eq b.mac a.mac ≡ false
other_mac a b h = elim (Bool-cases (str_eq b.mac a.mac)) [
  | inr other ↦ other
  | inl same ↦
      let e : b.mac ≡ a.mac = (eq_iff b.mac a.mac).0 same in absurd (h.0 (ap address_of (sym e)))
]

pub append-IsValid :
    (machines : List Machine) (new : Machine)
    → IsValid machines
    → IsMachine new
    → All (λ m. Compatible new m) machines
    → IsValid (machines ++ new ∷ [])
append-IsValid [] new h valid others = (valid, tt, tt)
append-IsValid (m ∷ machines) new h valid others = (
  h.0,
  All-append (Compatible m) machines (new ∷ []) h.1 (Compatible-sym new m others.0, tt),
  append-IsValid machines new h.2 valid others.1,
)

pub filter-IsValid :
    (p : Machine → Bool) (machines : List Machine) → IsValid machines → IsValid (filter p machines)
filter-IsValid p [] h = h
filter-IsValid p (m ∷ machines) h =
    elim (p m) as (λ b. IsValid (if b then m ∷ filter p machines else filter p machines)) [
      | true ↦ (h.0, All-filter (Compatible m) p machines h.1, filter-IsValid p machines h.2)
      | false ↦ filter-IsValid p machines h.2
    ]

All-set :
    (P : Machine → Type 0) (machines : List Machine) (i : ℕ) (new : Machine)
    → All P machines
    → P new
    → All P (set machines i new)
All-set P [] i new h n = tt
All-set P (m ∷ machines) zero new h n = (n, h.1)
All-set P (m ∷ machines) (suc i) new h n = (h.0, All-set P machines i new h.1 n)

-- The machines that an edit of `mac` compares with.
abbrev pub others : String → List Machine → List Machine
others mac machines = filter (λ m. not (has_mac mac m)) machines

others-Compatible :
    (m : Machine) (machines : List Machine)
    → All (Compatible m) machines
    → others m.mac machines ≡ machines
others-Compatible m [] h = refl
others-Compatible m (x ∷ machines) h = rw (other_mac m x h.0, others-Compatible m machines h.1) refl

position_from-ge :
    (p : Machine → Bool) (k i : ℕ) (machines : List Machine)
    → position_from k p machines ≡ some i
    → k ≤ i
position_from-ge p k i [] e = ground arith
position_from-ge p k i (m ∷ machines) e = ground (arith, position_from-ge p (suc k) i machines)

-- The machine that an edit finds is replaced by one that is compatible with all others.
set_from-IsValid :
    (machines : List Machine) (mac : String) (k i : ℕ) (new : Machine)
    → position_from k (has_mac mac) machines ≡ some i
    → IsValid machines
    → IsMachine new
    → All (Compatible new) (others mac machines)
    → IsValid (set machines (i - k) new)
set_from-IsValid [] mac k i new e h valid c = tt
set_from-IsValid (m ∷ machines) mac k i new e h valid c = elim (Bool-cases (str_eq m.mac mac)) [
  | inl same ↦
      let at : some k ≡ some i = rw same at e in
      let zero_step : i - k ≡ 0 = ground arith in
      let q : m.mac ≡ mac = (eq_iff m.mac mac).0 same in
      let rest : All (Compatible new) (others m.mac machines) = rw q (rw same at c) in
      rw zero_step
        (valid, subst (All (Compatible new)) (others-Compatible m machines h.1) rest, h.2)
  | inr other ↦
      let later : position_from (suc k) (has_mac mac) machines ≡ some i = rw other at e in
      let le : suc k ≤ i = position_from-ge (has_mac mac) (suc k) i machines later in
      let step : i - k ≡ suc (i - suc k) = omega arith in
      let c' : All (Compatible new) (m ∷ others mac machines) = rw other at c in
      rw step (
        h.0,
        All-set (Compatible m) machines (i - suc k) new h.1 (Compatible-sym new m c'.0),
        set_from-IsValid machines mac (suc k) i new later h.2 valid c'.1,
      )
]

pub set-IsValid :
    (machines : List Machine) (mac : String) (i : ℕ) (new : Machine)
    → position (has_mac mac) machines ≡ some i
    → IsValid machines
    → IsMachine new
    → All (Compatible new) (others mac machines)
    → IsValid (set machines i new)
set-IsValid machines mac i new e h valid c =
    let whole : i - 0 ≡ i = omega arith in
    subst (λ j. IsValid (set machines j new)) whole
      (set_from-IsValid machines mac 0 i new e h valid c)

-- A change of the key changes nothing that another machine is compared with.
pub set_key-IsValid :
    (machines : List Machine) (i : ℕ) (m : Machine) (key : Option String) (b : Bool)
    → get_elem? machines i ≡ some m
    → IsValid machines
    → IsValid (set machines i (set_key key b m))
unfolding set_key
set_key-IsValid [] i m key b e h = tt
set_key-IsValid (x ∷ machines) zero m key b e h = let q : x ≡ m = cc in rw (sym q) h
set_key-IsValid (x ∷ machines) (suc i) m key b e h = (
  h.0,
  kept (Compatible x) (λ y c. c) machines i m e h.1,
  set_key-IsValid machines i m key b e h.2,
)
  where
    kept :
        (P : Machine → Type 0)
        → ((y : Machine)
            → P y
            → P (record y { shutdown_auth_key = key; shutdown_auth_verified = b }))
        → (machines : List Machine) (i : ℕ) (m : Machine) → get_elem? machines i ≡ some m
        → All P machines
        → All P (set machines i (record m { shutdown_auth_key = key; shutdown_auth_verified = b }))
    kept P f [] i m e h = tt
    kept P f (y ∷ machines) zero m e h =
        let q : y ≡ m = cc in
        (
          subst (λ z. P (record z { shutdown_auth_key = key; shutdown_auth_verified = b })) q
              (f y h.0),
          h.1,
        )
    kept P f (y ∷ machines) (suc i) m e h = (h.0, kept P f machines i m e h.1)
