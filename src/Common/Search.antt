-- ===== src/Common/Search.antt =====
-- `str::contains`, `str::starts_with` and the trimming functions of the standard library, over code
-- points, with what they decide.
use mathlib.Core.List.{[], ◌∷◌, ◌++◌, reverse, reverse-cons}
use mathlib.Core.Path.{◌≡◌, refl, ap, sym, subst}
use mathlib.Core.Logic.{◌↔◌, ◌⊎◌, inl, inr}
use mathlib.Core.Bool.{Bool, true, false, ◌&&◌, ◌||◌}
use native.Mathlib.Omega.{arith}
use Prim.Native.Nat.{ℕ}
use curf.Common.Tests.{Text, nat_beq, nat_beq_iff, leb, if◌then◌else◌, Bool-cases}

unfoldable pub starts_with : Text → Text → Bool
starts_with [] s = true
starts_with (p ∷ pat) [] = false
starts_with (p ∷ pat) (c ∷ s) = nat_beq p c && starts_with pat s

unfoldable pub contains : Text → Text → Bool
unfolding starts_with
contains pat [] = starts_with pat []
contains pat (c ∷ s) = starts_with pat (c ∷ s) || contains pat s

-- The pattern stands somewhere in the text.
abbrev pub Occurs : Text → Text → Type 0
Occurs pat s = (before : Text) × (after : Text) × (s ≡ before ++ (pat ++ after))

pub starts_with_sound :
    (pat s : Text) → starts_with pat s ≡ true → (after : Text) × (s ≡ pat ++ after)
unfolding starts_with
starts_with_sound [] s h = (s, refl)
starts_with_sound (p ∷ pat) [] h = cc
starts_with_sound (p ∷ pat) (c ∷ s) h =
    let (after, e) = starts_with_sound pat s (ground arith) in
    (after, ground (arith, nat_beq_iff p c))

pub starts_with-append : (pat after : Text) → starts_with pat (pat ++ after) ≡ true
unfolding starts_with
starts_with-append [] after = refl
starts_with-append (p ∷ pat) after = ground (arith, nat_beq_iff p p, starts_with-append pat after)

contains-append : (pat before after : Text) → contains pat (before ++ (pat ++ after)) ≡ true
unfolding contains
contains-append [] [] [] = refl
contains-append [] [] (c ∷ after) = refl
contains-append (p ∷ pat) [] after = rw (starts_with-append (p ∷ pat) after)
contains-append pat (b ∷ before) after = ground (arith, contains-append pat before after)

contains_sound : (pat s : Text) → contains pat s ≡ true → Occurs pat s
unfolding contains
contains_sound pat [] h = let (after, e) = starts_with_sound pat [] h in ([], after, e)
contains_sound pat (c ∷ s) h = elim (Bool-cases (starts_with pat (c ∷ s))) [
  | inl here ↦ let (after, e) = starts_with_sound pat (c ∷ s) here in ([], after, e)
  | inr later ↦
      let (before, after, e) = contains_sound pat s (ground arith) in
      (c ∷ before, after, ap (◌∷◌ c) e)
]

-- The test finds exactly the texts in which the pattern stands.
pub contains_iff : (pat s : Text) → (contains pat s ≡ true) ↔ Occurs pat s
contains_iff pat s = (
  contains_sound pat s,
  λ (before, after, e).
      subst (λ t. contains pat t ≡ true) (sym e) (contains-append pat before after),
)

-- The code points of Unicode's `White_Space`.
unfoldable pub is_whitespace : ℕ → Bool
is_whitespace c =
    (leb 9 c && leb c 13)
    || nat_beq c 0x20
    || nat_beq c 0x85
    || nat_beq c 0xa0
    || nat_beq c 0x1680
    || (leb 0x2000 c && leb c 0x200a)
    || nat_beq c 0x2028
    || nat_beq c 0x2029
    || nat_beq c 0x202f
    || nat_beq c 0x205f
    || nat_beq c 0x3000

-- `trim_start_matches` by a test on a character.
unfoldable pub drop_while : (ℕ → Bool) → Text → Text
drop_while p [] = []
drop_while p (c ∷ s) = if p c then drop_while p s else c ∷ s

unfoldable pub trim_end_while : (ℕ → Bool) → Text → Text
unfolding drop_while
trim_end_while p s = reverse (drop_while p (reverse s))

unfoldable pub trim : Text → Text
unfolding drop_while trim_end_while is_whitespace
trim s = trim_end_while is_whitespace (drop_while is_whitespace s)

abbrev pub is_empty : Text → Bool
is_empty [] = true
is_empty (c ∷ s) = false

abbrev pub all_of : (ℕ → Bool) → Text → Bool
all_of p [] = true
all_of p (c ∷ s) = p c && all_of p s

is_empty-append_last : (xs : Text) (c : ℕ) → is_empty (xs ++ c ∷ []) ≡ false
is_empty-append_last [] c = refl
is_empty-append_last (x ∷ xs) c = refl

is_empty-reverse : (s : Text) → is_empty (reverse s) ≡ is_empty s
is_empty-reverse [] = refl
is_empty-reverse (c ∷ s) = rw (reverse-cons c s) (is_empty-append_last (reverse s) c)

is_empty-drop_while_last :
    (p : ℕ → Bool) (xs : Text) (c : ℕ)
    → p c ≡ false
    → is_empty (drop_while p (xs ++ c ∷ [])) ≡ false
unfolding drop_while
is_empty-drop_while_last p [] c h = rw h
is_empty-drop_while_last p (x ∷ xs) c h = ground (arith, is_empty-drop_while_last p xs c h)

-- What is left after the leading characters begins with one that stays.
drop_while-cases :
    (p : ℕ → Bool) (s : Text)
    → ((drop_while p s ≡ []) × (all_of p s ≡ true))
      ⊎ ((c : ℕ) × (r : Text) × (drop_while p s ≡ c ∷ r) × (p c ≡ false) × (all_of p s ≡ false))
unfolding drop_while
drop_while-cases p [] = inl (refl, refl)
drop_while-cases p (c ∷ s) = elim (Bool-cases (p c)) [
  | inl drops ↦ rw drops (drop_while-cases p s)
  | inr stays ↦ inr (c, s, rw stays, stays, rw stays)
]

-- A trimmed text is empty exactly when all of it is whitespace.
pub is_empty-trim : (s : Text) → is_empty (trim s) ≡ all_of is_whitespace s
unfolding trim trim_end_while
is_empty-trim s = elim (drop_while-cases is_whitespace s) [
  | inl (e, all) ↦ rw (e, all)
  | inr (c, r, e, stays, all) ↦
      rw (e, all, is_empty-reverse (drop_while is_whitespace (reverse (c ∷ r))), reverse-cons c r)
        (is_empty-drop_while_last is_whitespace (reverse r) c stays)
]
