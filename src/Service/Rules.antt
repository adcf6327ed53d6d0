-- ===== src/Service/Rules.antt =====
-- Rules for the fallible calls of src/service.rs: what holds of the disk after a success, and what
-- after an error.
use wakezilla.Prelude.{Bool-cases, Result, ok, err, ◌≡◌, refl, subst, inl, inr, Bool, true, false}
use wakezilla.Service.Disk.{Disk, IoError, Io, bind, ensure, tick, perform}

pub data Ends {A : Type 0} (P : A → Disk → Type 0) (Q : IoError → Disk → Type 0)
    : Result A IoError × Disk → Type 0 where
  returns : (a : A) (d : Disk) → P a d → Ends P Q (ok a, d)
  raises : (e : IoError) (d : Disk) → Q e d → Ends P Q (err e, d)

pub Ends-bind :
    {A B : Type 0} {P : A → Disk → Type 0} {P' : B → Disk → Type 0} {Q : IoError → Disk → Type 0}
    {r : Result A IoError × Disk} (f : A → Io B)
    → Ends P Q r
    → ((a : A) (d : Disk) → P a d → Ends P' Q (f a d))
    → Ends P' Q (bind r f)
Ends-bind f (returns a d p) next = next a d p
Ends-bind f (raises e d q) next = raises e d q

-- An error is worked on by `g`, and stays one.
pub Ends-weaken :
    {A : Type 0} {P P' : A → Disk → Type 0} {Q Q' : IoError → Disk → Type 0}
    {r : Result A IoError × Disk}
    → Ends P Q r
    → ((a : A) (d : Disk) → P a d → P' a d)
    → ((e : IoError) (d : Disk) → Q e d → Q' e d)
    → Ends P' Q' r
Ends-weaken (returns a d p) f g = returns a d (f a d p)
Ends-weaken (raises e d q) f g = raises e d (g e d q)

pub perform-Ends :
    {P : Unit {0} → Disk → Type 0} {Q : IoError → Disk → Type 0} (e : IoError)
    (change : Disk → Disk) (d : Disk)
    → Q e (tick d)
    → P tt (tick (change d))
    → Ends P Q (perform e change d)
unfolding perform
perform-Ends e change d q p = elim (Bool-cases (d.fails d.calls)) [
  | inl failed ↦ rw failed (raises e (tick d) q)
  | inr done ↦ rw done (returns tt (tick (change d)) p)
]

pub ensure-Ends :
    {P : Unit {0} → Disk → Type 0} {Q : IoError → Disk → Type 0} (test : Bool) (e : IoError)
    (d : Disk)
    → Q e d
    → (test ≡ true → P tt d)
    → Ends P Q (ensure test e d)
ensure-Ends true e d q p = returns tt d (p refl)
ensure-Ends false e d q p = raises e d q

-- What a success gives.
pub Ends-ok :
    {A : Type 0} {P : A → Disk → Type 0} {Q : IoError → Disk → Type 0} {r : Result A IoError × Disk}
    (a : A)
    → Ends P Q r
    → r.0 ≡ ok a
    → P a r.1
Ends-ok {P = P} a (returns b d p) h = subst (λ c. P c d) (cc) p
Ends-ok a (raises e d q) h = cc

pub Ends-err :
    {A : Type 0} {P : A → Disk → Type 0} {Q : IoError → Disk → Type 0} {r : Result A IoError × Disk}
    (e : IoError)
    → Ends P Q r
    → r.0 ≡ err e
    → Q e r.1
Ends-err {Q = Q} e (raises e' d q) h = subst (λ c. Q c d) (cc) q
Ends-err e (returns b d p) h = cc
