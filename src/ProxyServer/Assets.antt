-- ===== src/ProxyServer/Assets.antt =====
-- src/proxy_server.rs: the static files of the dashboard. The files that the build embeds are an
-- argument, and paths are code points.
pub mod Traversal
use wakezilla.Prelude.{
  ◌==◌, if◌then◌else◌, length, any, codes, codes_eq, ℕ, Bool, false, ◌||◌, Option, none, some, List,
  [], ◌∷◌, ◌++◌,
}

-- FRONTEND_DIST.get_file
abbrev pub Dist : Type 0
Dist = (path : List ℕ) → Option (List ℕ)

-- A response: the contents of a file with status 200, or status 404.
pub data Response : Type 0 where
  found : (body : List ℕ) → Response
  not_found : Response

unfoldable pub trim_slashes : List ℕ → List ℕ
trim_slashes [] = []
trim_slashes (c ∷ cs) = let rest = trim_slashes cs in if c == b'/' then rest else c ∷ cs

-- The texts between slashes.
unfoldable pub segments_from : (segment : List ℕ) → List ℕ → List (List ℕ)
segments_from segment [] = segment ∷ []
segments_from segment (c ∷ cs) =
    let next = segment ∷ segments_from [] cs in
    let same = segments_from (segment ++ c ∷ []) cs in if c == b'/' then next else same

abbrev pub is_parent : List ℕ → Bool
is_parent segment = codes_eq segment (b'.' ∷ b'.' ∷ [])

unfoldable pub starts_with_current : List (List ℕ) → Bool
unfolding codes_eq
starts_with_current [] = false
starts_with_current (segment ∷ rest) = codes_eq segment (b'.' ∷ [])

-- Path::components of a relative path has one that is not Normal: a parent directory, or the current
-- directory at the start. Empty segments and later dots are skipped.
unfoldable pub is_abnormal : (target : List ℕ) → Bool
unfolding segments_from starts_with_current codes_eq
is_abnormal target =
    any is_parent (segments_from [] target) || starts_with_current (segments_from [] target)

abbrev pub index : List ℕ
index = codes "index.html"

unfoldable pub target_of : (path : List ℕ) → List ℕ
unfolding trim_slashes
target_of path = if length (trim_slashes path) == 0 then index else trim_slashes path

unfoldable pub index_or_missing : (target : List ℕ) → (index_file : Option (List ℕ)) → Response
index_or_missing target none = not_found
index_or_missing target (some body) = if any (λ c. c == b'.') target then not_found else found body

unfoldable pub file_or_index : Dist → (target : List ℕ) → Option (List ℕ) → Response
unfolding index_or_missing
file_or_index dist target (some body) = found body
file_or_index dist target none = index_or_missing target (dist index)

unfoldable pub asset_response : Dist → (path : List ℕ) → Response
unfolding target_of is_abnormal file_or_index
asset_response dist path =
    if is_abnormal (target_of path)
    then not_found
    else file_or_index dist (target_of path) (dist (target_of path))

pub data Method : Type 0 where
  get head other_method : Method

unfoldable pub without_body : Response → Response
without_body (found body) = found []
without_body not_found = not_found

unfoldable pub spa_fallback : Dist → Method → (path : List ℕ) → Response
unfolding asset_response without_body
spa_fallback dist get path = asset_response dist path
spa_fallback dist head path = without_body (asset_response dist path)
spa_fallback dist other_method path = not_found
