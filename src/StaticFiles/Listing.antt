-- ===== src/StaticFiles/Listing.antt =====
-- src/static_files.rs, `directory_listing`: what is read of a directory, and the page of its entries,
-- each with its name and whether it is a directory.
use curf.Common.{
  Bool, true, false, Option, none, some, List, [], ◌∷◌, ◌++◌, Text, codes, if◌then◌else◌, ltb,
  nat_beq,
}
use curf.Common.Search.{trim_end_while, is_empty}

-- An entry as `read_dir` gives it: its name, with what is no Unicode replaced, and whether it is a
-- directory, where that can be read.
pub record DirEntry : Type 0 where
  pub file_name : Text
  pub is_dir : Option Bool

abbrev pub or_false : Option Bool → Bool
or_false none = false
or_false (some b) = b

-- The loop over `next_entry`, whose answers end with the directory or stand at an error.
unfoldable pub read_entries : List (Option DirEntry) → List (Text × Bool)
read_entries [] = []
read_entries (none ∷ answers) = []
read_entries (some entry ∷ answers) =
    (entry.file_name, or_false entry.is_dir) ∷ read_entries answers

-- A directory that cannot be read has no entries.
unfoldable pub entries_in : Option (List (Option DirEntry)) → List (Text × Bool)
unfolding read_entries
entries_in none = []
entries_in (some answers) = read_entries answers

-- The order of texts, by code points from the left.
abbrev pub text_leb : Text → Text → Bool
text_leb [] t = true
text_leb (a ∷ s) [] = false
text_leb (a ∷ s) (b ∷ t) = if ltb a b then true else if ltb b a then false else text_leb s t

-- `sort_by`, which keeps the order of equal names, as an insertion from the right.
unfoldable pub insert_entry : Text × Bool → List (Text × Bool) → List (Text × Bool)
insert_entry e [] = e ∷ []
insert_entry e (x ∷ xs) = if text_leb e.0 x.0 then e ∷ x ∷ xs else x ∷ insert_entry e xs

unfoldable pub sort_entries : List (Text × Bool) → List (Text × Bool)
unfolding insert_entry
sort_entries [] = []
sort_entries (e ∷ es) = insert_entry e (sort_entries es)

abbrev pub suffix_of : Bool → Text
suffix_of true = codes "/"
suffix_of false = []

abbrev pub link_to : Text → Text × Bool → Text
link_to base e =
    codes "<a href=\""
    ++ (base
        ++ (codes "/"
            ++ (e.0
                ++ (suffix_of e.1 ++ (codes "\">" ++ (e.0 ++ (suffix_of e.1 ++ codes "</a>")))))))

abbrev pub links : Text → List (Text × Bool) → Text
links base [] = []
links base (e ∷ es) = link_to base e ++ links base es

abbrev pub up_link : Text → Text
up_link base = if is_empty base then [] else codes "<a href=\"../\">../</a>"

abbrev pub page_start : Text → Text
page_start base =
    codes "<!DOCTYPE html><html><head><title>Index of "
    ++ (base
        ++ (codes
              "</title><style>body{font-family:monospace;padding:1em}a{display:block;margin:.2em 0}</style></head><body><h1>Index of "
            ++ (base ++ codes "</h1><hr>")))

unfoldable pub directory_listing : List (Text × Bool) → Text → Text
unfolding sort_entries
directory_listing entries url_path =
    let base = trim_end_while (λ c. nat_beq c b'/') url_path in
    page_start base
    ++ (up_link base ++ (links base (sort_entries entries) ++ codes "<hr></body></html>"))
