-- ===== src/StaticFiles/ListingOrder.antt =====
-- The page of a directory does not depend on the order in which the file system names its entries.
use curf.Common.{
  Bool, true, false, ◌≡◌, refl, ap, sym, ◌∙◌, inl, inr, List, [], ◌∷◌, map, Text, arith, Bool-cases,
  subst,
}
use mathlib.Core.List.{Perm, Permᴰ}
use mathlib.Core.Logic.{∥∥₁_elim}
use curf.StaticFiles.Listing.{text_leb, insert_entry, sort_entries, directory_listing}

text_leb_total : (s t : Text) → text_leb s t ≡ false → text_leb t s ≡ true
text_leb_total [] t e = ground arith
text_leb_total (a ∷ s) [] e = refl
text_leb_total (a ∷ s) (b ∷ t) e = ground (arith, text_leb_total s t)

text_leb_antisym : (s t : Text) → text_leb s t ≡ true → text_leb t s ≡ true → s ≡ t
text_leb_antisym [] [] e f = refl
text_leb_antisym [] (b ∷ t) e f = ground arith
text_leb_antisym (a ∷ s) [] e f = ground arith
text_leb_antisym (a ∷ s) (b ∷ t) e f = ground (arith, text_leb_antisym s t)

text_leb_trans : (s t u : Text) → text_leb s t ≡ true → text_leb t u ≡ true → text_leb s u ≡ true
text_leb_trans [] t u e f = refl
text_leb_trans (a ∷ s) [] u e f = ground arith
text_leb_trans (a ∷ s) (b ∷ t) [] e f = ground arith
text_leb_trans (a ∷ s) (b ∷ t) (c ∷ u) e f = ground (arith, text_leb_trans s t u)

-- Two entries where the first goes before the second.
insert_entry-ordered :
    (a b : Text × Bool) (xs : List (Text × Bool))
    → text_leb a.0 b.0 ≡ true
    → text_leb b.0 a.0 ≡ false
    → insert_entry a (insert_entry b xs) ≡ insert_entry b (insert_entry a xs)
unfolding insert_entry
insert_entry-ordered a b [] before not_after = ground arith
insert_entry-ordered a b (x ∷ xs) before not_after = ground (
  arith,
  insert_entry-ordered a b xs before not_after,
  text_leb_trans a.0 b.0 x.0,
  text_leb_trans b.0 x.0 a.0,
  text_leb_total x.0 a.0,
  text_leb_total a.0 x.0,
)

module _ (kind : Text → Bool) where
  insert_entry_comm :
      (m n : Text) (xs : List (Text × Bool))
      → insert_entry (m, kind m) (insert_entry (n, kind n) xs)
        ≡ insert_entry (n, kind n) (insert_entry (m, kind m) xs)
  insert_entry_comm m n xs = elim (Bool-cases (text_leb m n)) [
    | inl le ↦ elim (Bool-cases (text_leb n m)) [
      | inl ge ↦
          let same = text_leb_antisym m n le ge in
          subst
            (λ k.
              insert_entry (m, kind m) (insert_entry (k, kind k) xs)
              ≡ insert_entry (k, kind k) (insert_entry (m, kind m) xs))
            same refl
      | inr less ↦ insert_entry-ordered (m, kind m) (n, kind n) xs le less
    ]
    | inr more ↦
        sym (insert_entry-ordered (n, kind n) (m, kind m) xs (text_leb_total m n more) more)
  ]

  abbrev pub entries_of : List Text → List (Text × Bool)
  entries_of = map λ name. (name, kind name)

  sort_entries-moved :
      {names names' : List Text}
      → Permᴰ names names'
      → sort_entries (entries_of names) ≡ sort_entries (entries_of names')
  unfolding sort_entries
  sort_entries-moved Permᴰ.nil = refl
  sort_entries-moved (Permᴰ.cons {a} {b} {l₁} {l₂} e p) =
      ap (λ x. insert_entry (x, kind x) (sort_entries (entries_of l₁))) e
      ∙ ap (insert_entry (b, kind b)) (sort_entries-moved p)
  sort_entries-moved (Permᴰ.swap {a} {b} {a'} {b'} {l} e f) =
      insert_entry_comm a b (sort_entries (entries_of l))
      ∙ ap (λ x. insert_entry (b, kind b) (insert_entry (x, kind x) (sort_entries (entries_of l))))
          e
      ∙ ap
          (λ x. insert_entry (x, kind x) (insert_entry (b', kind b') (sort_entries (entries_of l))))
          f
  sort_entries-moved (Permᴰ.trans p q) = sort_entries-moved p ∙ sort_entries-moved q

  -- Whatever the order in which the file system names the entries of a directory, the page is the
  -- same: whether an entry is a directory goes with its name.
  pub directory_listing-Perm :
      (names names' : List Text) (url_path : Text)
      → Perm names names'
      → directory_listing (entries_of names) url_path
        ≡ directory_listing (entries_of names') url_path
  unfolding directory_listing
  directory_listing-Perm names names' url_path p =
      let same : sort_entries (entries_of names) ≡ sort_entries (entries_of names') =
        ∥∥₁_elim p (hlevel) sort_entries-moved in
      rw same refl
