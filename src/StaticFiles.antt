-- ===== src/StaticFiles.antt =====
-- src/static_files.rs: how a url path becomes a path of the file system, on Unix. A path is the list
-- of its components, the last first, as `Path::components` gives them. `decode` is the crate
-- percent_encoding with the check for UTF-8.
pub mod Names
pub mod Inside
pub mod Resolve
pub mod Serve
pub mod Listing
pub mod ListingOrder
pub mod Conditional
pub mod Etag
mod ServeTests
mod Tests
use curf.Common.{
  ℕ, Bool, true, false, Option, none, some, List, [], ◌∷◌, ◌++◌, ◌&&◌, if◌then◌else◌, Text, codes,
  nat_beq,
}
use curf.Common.Equality.{list_beq, nat_key}

pub data Component : Type 0 where
  root_dir cur_dir parent_dir : Component
  normal prefix : Text → Component

-- The pieces between slashes.
unfoldable pub pieces : Text → List Text
pieces [] = [] ∷ []
pieces (c ∷ s) = elim (pieces s) [
  | [] ↦ []
  | p ∷ ps ↦ if nat_beq c b'/' then [] ∷ p ∷ ps else (c ∷ p) ∷ ps
]

abbrev pub dot : Text
dot = codes "."

abbrev pub dot_dot : Text
dot_dot = codes ".."

-- One piece that is not the first: empty ones and `.` give nothing.
abbrev pub component_of : Text → List Component → List Component
component_of p rest =
    if list_beq p []
    then rest
    else if list_beq p dot
    then rest
    else if list_beq p dot_dot
    then parent_dir ∷ rest
    else normal p ∷ rest

abbrev pub components_of : List Text → List Component
components_of [] = []
components_of (p ∷ ps) = component_of p (components_of ps)

abbrev pub components_from : List Text → List Component
components_from [] = []
components_from (p ∷ ps) =
    if list_beq p dot then cur_dir ∷ components_of ps else components_of (p ∷ ps)

-- `Path::components` on Unix: a leading slash is the root, a leading `.` is kept.
unfoldable pub components : Text → List Component
unfolding pieces
components [] = []
components (c ∷ s) =
    if nat_beq c b'/' then root_dir ∷ components_of (pieces s) else components_from (pieces (c ∷ s))

-- `PathBuf::pop`: nothing where the path has no parent.
abbrev pub pop : List Component → Option (List Component)
pop [] = none
pop (root_dir ∷ p) = none
pop (prefix d ∷ p) = none
pop (cur_dir ∷ p) = some p
pop (parent_dir ∷ p) = some p
pop (normal n ∷ p) = some p

abbrev pub component_beq : Component → Component → Bool
component_beq root_dir root_dir = true
component_beq cur_dir cur_dir = true
component_beq parent_dir parent_dir = true
component_beq (normal a) (normal b) = list_beq a b
component_beq (prefix a) (prefix b) = list_beq a b
component_beq _ _ = false

abbrev pub path_beq : List Component → List Component → Bool
path_beq [] [] = true
path_beq (c ∷ cs) (d ∷ ds) = component_beq c d && path_beq cs ds
path_beq _ _ = false

-- `Path::starts_with`, of a path and a base that are given from the last component.
unfoldable pub ends_in : List Component → List Component → Bool
ends_in [] base = path_beq [] base
ends_in (c ∷ p) base = if path_beq (c ∷ p) base then true else ends_in p base

-- The loop over the components.
unfoldable pub walk : List Component → List Component → Option (List Component)
walk [] result = some result
walk (normal part ∷ cs) result = walk cs (normal part ∷ result)
walk (parent_dir ∷ cs) result = elim (pop result) [ none ↦ none | some up ↦ walk cs up ]
walk (root_dir ∷ cs) result = walk cs result
walk (cur_dir ∷ cs) result = walk cs result
walk (prefix d ∷ cs) result = none

-- `split('?').next()`
unfoldable pub before_query : Text → Text
before_query [] = []
before_query (c ∷ s) = let rest = before_query s in if nat_beq c b'?' then [] else c ∷ rest

unfoldable pub inside : List Component → List Component → Option (List Component)
inside root result = if ends_in result root then some result else none

infixl 5 ◌>>=◌
abbrev ◌>>=◌ {ℓ κ} : {A : Type ℓ} {B : Type κ} → Option A → (A → Option B) → Option B
none >>= k = none
some a >>= k = k a

unfoldable pub safe_path : (Text → Option Text) → List Component → Text → Option (List Component)
unfolding components walk before_query inside ends_in
safe_path decode root url_path = do
  decoded ← decode url_path
  result ← walk (components (before_query decoded)) root
  inside root result
