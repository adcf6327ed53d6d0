-- ===== src/ProxyServer/Assets/Traversal.antt =====
-- src/proxy_server.rs: no request leaves the directory of the dashboard.
use wakezilla.Prelude.{
  ◌==◌, Bool-cases, length, any, codes_eq, ℕ, ◌≡◌, refl, ap, ◌∙◌, inl, inr, Bool, true, ◌||◌, List,
  [], ◌∷◌, ◌++◌, arith,
}
use wakezilla.ProxyServer.Assets.{
  Dist, trim_slashes, segments_from, is_parent, is_abnormal, target_of, asset_response, Method,
  without_body, spa_fallback, not_found, get, head, other_method,
}

any-append :
    {A : Type 0} (p : A → Bool) (xs ys : List A) → any p (xs ++ ys) ≡ (any p xs || any p ys)
any-append p [] ys = refl
any-append p (x ∷ xs) ys = ground (arith, any-append p xs ys)

-- What follows a slash is split by itself.
segments_from-append :
    (segment xs ys : List ℕ)
    → segments_from segment (xs ++ b'/' ∷ ys) ≡ segments_from segment xs ++ segments_from [] ys
unfolding segments_from
segments_from-append segment [] ys = refl
segments_from-append segment (c ∷ cs) ys = elim (Bool-cases (c == b'/')) [
  | inl slash ↦ rw slash (ap (λ rest. segment ∷ rest) (segments_from-append [] cs ys))
  | inr other ↦ rw other (segments_from-append (segment ++ c ∷ []) cs ys)
]

-- The slashes at the start of a path hide no segment.
trim_slashes-any :
    (path : List ℕ)
    → any is_parent (segments_from [] (trim_slashes path)) ≡ any is_parent (segments_from [] path)
unfolding trim_slashes segments_from codes_eq
trim_slashes-any [] = refl
trim_slashes-any (c ∷ cs) = elim (Bool-cases (c == b'/')) [
  | inl slash ↦ rw slash (trim_slashes-any cs)
  | inr other ↦ rw other (rw other refl)
]

-- The text after a segment: nothing, or a slash and more.
abbrev pub is_boundary : List ℕ → Bool
is_boundary [] = true
is_boundary (c ∷ cs) = c == b'/'

parent_segment :
    (rest : List ℕ)
    → is_boundary rest ≡ true
    → any is_parent (segments_from (b'.' ∷ b'.' ∷ []) rest) ≡ true
unfolding segments_from codes_eq
parent_segment [] h = refl
parent_segment (c ∷ cs) h = rw h refl

any-parent :
    (front rest : List ℕ)
    → is_boundary rest ≡ true
    → any is_parent (segments_from [] (front ++ b'/' ∷ b'.' ∷ b'.' ∷ rest)) ≡ true
any-parent front rest h =
    let split = segments_from-append [] front (b'.' ∷ b'.' ∷ rest) in
    let there : any is_parent (segments_from [] (b'.' ∷ b'.' ∷ rest)) ≡ true =
      unfold segments_from in parent_segment rest h in
    ap (any is_parent) split
    ∙ any-append is_parent (segments_from [] front) (segments_from [] (b'.' ∷ b'.' ∷ rest))
    ∙ ground (arith, there)

no_segment :
    (path : List ℕ) → (length path == 0) ≡ true → any is_parent (segments_from [] path) ≡ true → ⊥
unfolding segments_from codes_eq
no_segment [] e h = ground (arith, h)
no_segment (c ∷ cs) e h = ground (arith, e)

target_of-parent :
    (path : List ℕ)
    → any is_parent (segments_from [] path) ≡ true
    → is_abnormal (target_of path) ≡ true
unfolding target_of is_abnormal
target_of-parent path h = elim (Bool-cases (length (trim_slashes path) == 0)) [
  | inl nothing ↦ absurd (no_segment (trim_slashes path) nothing (trim_slashes-any path ∙ h))
  | inr more ↦ rw (more, trim_slashes-any path, h) refl
]

-- A request whose path has a segment `..` after a slash is answered with 404 and no file, whatever
-- files the build embeds and whatever the method is.
pub spa_fallback-parent :
    (dist : Dist) (method : Method) (front rest : List ℕ)
    → is_boundary rest ≡ true
    → spa_fallback dist method (front ++ b'/' ∷ b'.' ∷ b'.' ∷ rest) ≡ not_found
unfolding spa_fallback asset_response without_body
spa_fallback-parent dist get front rest h =
    rw (target_of-parent (front ++ b'/' ∷ b'.' ∷ b'.' ∷ rest) (any-parent front rest h)) refl
spa_fallback-parent dist head front rest h =
    rw (target_of-parent (front ++ b'/' ∷ b'.' ∷ b'.' ∷ rest) (any-parent front rest h)) refl
spa_fallback-parent dist other_method front rest h = refl
