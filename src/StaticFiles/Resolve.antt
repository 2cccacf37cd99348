-- ===== src/StaticFiles/Resolve.antt =====
-- Which paths under the root `safe_path` gives: those that a url names by going down, and up again
-- no further than the root; and a way round over the parent of the root.
use curf.Common.{
  ◌≡◌, refl, ap, ◌∙◌, true, Option, none, some, List, [], ◌∷◌, ◌++◌, map, Text, arith,
}
use curf.Common.Equality.{list_beq_iff, nat_key}
use curf.StaticFiles.{
  Component, root_dir, cur_dir, parent_dir, normal, prefix, component_beq, path_beq, ends_in, walk,
  components, before_query, inside, safe_path,
}

-- The names below the root, the last first, or nothing where `..` would leave the root.
unfoldable pub resolve : List Component → List Text → Option (List Text)
resolve [] names = some names
resolve (normal n ∷ cs) names = resolve cs (n ∷ names)
resolve (parent_dir ∷ cs) [] = none
resolve (parent_dir ∷ cs) (n ∷ names) = resolve cs names
resolve (root_dir ∷ cs) names = resolve cs names
resolve (cur_dir ∷ cs) names = resolve cs names
resolve (prefix d ∷ cs) names = none

walk-resolve :
    (root cs : List Component) (names found : List Text)
    → resolve cs names ≡ some found
    → walk cs (map normal names ++ root) ≡ some (map normal found ++ root)
unfolding walk resolve
walk-resolve root [] names found e = ground arith
walk-resolve root (normal n ∷ cs) names found e = walk-resolve root cs (n ∷ names) found e
walk-resolve root (parent_dir ∷ cs) [] found e = cc
walk-resolve root (parent_dir ∷ cs) (n ∷ names) found e = walk-resolve root cs names found e
walk-resolve root (root_dir ∷ cs) names found e = walk-resolve root cs names found e
walk-resolve root (cur_dir ∷ cs) names found e = walk-resolve root cs names found e
walk-resolve root (prefix d ∷ cs) names found e = cc

component_beq_refl : (c : Component) → component_beq c c ≡ true
component_beq_refl root_dir = refl
component_beq_refl cur_dir = refl
component_beq_refl parent_dir = refl
component_beq_refl (normal a) = (list_beq_iff a a).1 refl
component_beq_refl (prefix a) = (list_beq_iff a a).1 refl

path_beq_refl : (p : List Component) → path_beq p p ≡ true
path_beq_refl [] = refl
path_beq_refl (c ∷ p) = rw (component_beq_refl c, path_beq_refl p)

ends_in_self : (p : List Component) → ends_in p p ≡ true
unfolding ends_in
ends_in_self [] = refl
ends_in_self (c ∷ p) = rw (path_beq_refl (c ∷ p))

ends_in-append : (above p : List Component) → ends_in (above ++ p) p ≡ true
unfolding ends_in
ends_in-append [] p = ends_in_self p
ends_in-append (a ∷ above) p = ground (arith, ends_in-append above p)

module _ (decode : Text → Option Text) (root : List Component) (url_path decoded : Text)
    (decodes : decode url_path ≡ some decoded) where
  safe_path-walk :
      (found : List Text)
      → walk (components (before_query decoded)) root ≡ some (map normal found ++ root)
      → safe_path decode root url_path ≡ some (map normal found ++ root)
  unfolding safe_path inside
  safe_path-walk found e = rw (decodes, e, ends_in-append (map normal found) root)

  -- A url whose decoded path, up to a question mark, names something under the root without going
  -- above it on the way is given as that path under the root.
  pub safe_path-resolve :
      (found : List Text)
      → resolve (components (before_query decoded)) [] ≡ some found
      → safe_path decode root url_path ≡ some (map normal found ++ root)
  safe_path-resolve found e =
      safe_path-walk found (walk-resolve root (components (before_query decoded)) [] found e)

-- A path that begins with a slash and `..` and comes back by the name of the root directory is not
-- refused: it is given as if it had not left the root.
pub safe_path-re_enters :
    (decode : Text → Option Text) (name : Text) (parent rest : List Component)
    (url_path decoded : Text) (found : List Text)
    → decode url_path ≡ some decoded
    → components (before_query decoded) ≡ root_dir ∷ parent_dir ∷ normal name ∷ rest
    → resolve rest [] ≡ some found
    → safe_path decode (normal name ∷ parent) url_path
      ≡ some (map normal found ++ normal name ∷ parent)
unfolding walk
safe_path-re_enters decode name parent rest url_path decoded found d c e =
    safe_path-walk decode (normal name ∷ parent) url_path decoded d found (
      ap (λ cs. walk cs (normal name ∷ parent)) c
      ∙ walk-resolve (normal name ∷ parent) rest [] found e)
