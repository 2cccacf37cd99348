-- ===== src/StaticFiles/Tests.antt =====
-- Paths below /srv/www, and the theorems at them.
use curf.Common.{
  Bool, true, false, ◌≡◌, refl, Option, none, some, List, [], ◌∷◌, ◌++◌, map, Text, codes, All,
}
use curf.StaticFiles.{Component, root_dir, normal, safe_path, components, before_query}
use curf.StaticFiles.Listing.{DirEntry, entries_in, directory_listing}
use curf.StaticFiles.ListingOrder.{entries_of, directory_listing-Perm}
use mathlib.Core.List.Perm
use curf.Common.Equality.{list_beq, nat_key}
use curf.StaticFiles.Names.{IsName}
use curf.StaticFiles.Inside.{safe_path-inside}
use curf.StaticFiles.Resolve.{resolve, safe_path-resolve, safe_path-re_enters}

abbrev www : List Component
www = normal (codes "www") ∷ normal (codes "srv") ∷ root_dir ∷ []

-- A url with no percent sign decodes to itself.
abbrev plain : Text → Option Text
plain s = some s

abbrev page : List Component
page = normal (codes "b.html") ∷ normal (codes "a") ∷ www

serves :
    (safe_path plain www (codes "/a/./x/../b.html?v=2") ≡ some page)
    × (safe_path plain www (codes "/../../etc/passwd") ≡ none)
    × (safe_path plain www (codes "/../../../..") ≡ none)
unfolding safe_path
serves = (refl, refl, refl)

safe_path-inside_example : (names : List Text) × (page ≡ map normal names ++ www) × All IsName names
safe_path-inside_example = safe_path-inside plain www (codes "/a/./x/../b.html?v=2") page serves.0

safe_path-resolve_example :
    safe_path plain www (codes "/a//b") ≡ some (map normal (codes "b" ∷ codes "a" ∷ []) ++ www)
unfolding resolve components before_query
safe_path-resolve_example =
    safe_path-resolve plain www (codes "/a//b") (codes "/a//b") refl (codes "b" ∷ codes "a" ∷ [])
      refl

safe_path-re_enters_example :
    safe_path plain www (codes "/../www/a") ≡ some (map normal (codes "a" ∷ []) ++ www)
unfolding resolve components before_query
safe_path-re_enters_example =
    safe_path-re_enters plain (codes "www") (normal (codes "srv") ∷ root_dir ∷ [])
      (normal (codes "a") ∷ []) (codes "/../www/a") (codes "/../www/a") (codes "a" ∷ []) refl refl
      refl

abbrev is_sub : Text → Bool
is_sub name = list_beq name (codes "sub")

directory_listing-Perm_example :
    directory_listing (entries_of is_sub (codes "b" ∷ codes "sub" ∷ [])) (codes "/x/")
    ≡ directory_listing (entries_of is_sub (codes "sub" ∷ codes "b" ∷ [])) (codes "/x/")
directory_listing-Perm_example =
    directory_listing-Perm is_sub (codes "b" ∷ codes "sub" ∷ []) (codes "sub" ∷ codes "b" ∷ [])
      (codes "/x/") (Perm.swap (codes "sub") (codes "b") [])

abbrev an_entry : Text → Option Bool → Option DirEntry
an_entry name is_dir = some (record { file_name = name; is_dir = is_dir })

-- What comes after an error is not read, and a file whose type cannot be read is no directory.
reads :
    (entries_in (
        some (
          an_entry (codes "b") none
          ∷ an_entry (codes "a") (some true)
          ∷ none
          ∷ an_entry (codes "c") none
          ∷ []))
      ≡ (codes "b", false) ∷ (codes "a", true) ∷ [])
    × (entries_in none ≡ [])
unfolding entries_in
reads = (refl, refl)
