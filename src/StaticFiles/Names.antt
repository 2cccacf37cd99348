-- ===== src/StaticFiles/Names.antt =====
-- The names in the components of a path: no empty one, no `.` or `..`, and no slash in any.
use curf.Common.{
  ◌≡◌, ◌≢◌, true, false, List, [], ◌∷◌, if◌then◌else◌, Text, Bool-cases, inl, inr, ◌⊎◌, All,
  nat_beq, nat_beq_iff,
}
use curf.Common.Equality.{list_beq, list_beq_iff, nat_key}
use curf.StaticFiles.{
  Component, normal, pieces, dot, dot_dot, component_of, components_of, components_from, components,
}

abbrev pub HasNoSlash : Text → Type 0
HasNoSlash = All (λ c. c ≢ b'/')

abbrev pub IsName : Text → Type 0
IsName n = (n ≢ []) × (n ≢ dot) × (n ≢ dot_dot) × HasNoSlash n

abbrev pub IsPlain : Component → Type 0
IsPlain (normal n) = IsName n
IsPlain _ = Unit

pieces-HasNoSlash : (s : Text) → All HasNoSlash (pieces s)
unfolding pieces
pieces-HasNoSlash [] = (tt, tt)
pieces-HasNoSlash (c ∷ s) = add (pieces s) (pieces-HasNoSlash s) (Bool-cases (nat_beq c b'/'))
  where
    add :
        (ps : List Text)
        → All HasNoSlash ps
        → (nat_beq c b'/' ≡ true) ⊎ (nat_beq c b'/' ≡ false)
        → All HasNoSlash
            (elim ps [ [] ↦ [] | p ∷ r ↦ if nat_beq c b'/' then [] ∷ p ∷ r else (c ∷ p) ∷ r ])
    add [] h t = tt
    add (p ∷ r) h (inl slash) = rw slash (tt, h)
    add (p ∷ r) h (inr other) =
        let n : c ≢ b'/' = λ e. cc (other, (nat_beq_iff c b'/').1 e) in rw other ((n, h.0), h.1)

beq-ne : (p q : Text) → list_beq p q ≡ false → p ≢ q
beq-ne p q h e = cc (h, (list_beq_iff p q).1 e)

component_of-IsPlain :
    (p : Text) (rest : List Component)
    → HasNoSlash p
    → All IsPlain rest
    → All IsPlain (component_of p rest)
component_of-IsPlain p rest n h = elim (Bool-cases (list_beq p [])) [
  | inl e ↦ rw e h
  | inr not_empty ↦ elim (Bool-cases (list_beq p dot)) [
    | inl e ↦ rw (not_empty, e) h
    | inr not_dot ↦ elim (Bool-cases (list_beq p dot_dot)) [
      | inl e ↦ rw (not_empty, not_dot, e) (tt, h)
      | inr not_up ↦
          rw (not_empty, not_dot, not_up)
            ((beq-ne p [] not_empty, beq-ne p dot not_dot, beq-ne p dot_dot not_up, n), h)
    ]
  ]
]

components_of-IsPlain : (ps : List Text) → All HasNoSlash ps → All IsPlain (components_of ps)
components_of-IsPlain [] h = tt
components_of-IsPlain (p ∷ ps) h =
    component_of-IsPlain p (components_of ps) h.0 (components_of-IsPlain ps h.1)

components_from-IsPlain : (ps : List Text) → All HasNoSlash ps → All IsPlain (components_from ps)
components_from-IsPlain [] h = tt
components_from-IsPlain (p ∷ ps) h = elim (Bool-cases (list_beq p dot)) [
  | inl e ↦ rw e (tt, components_of-IsPlain ps h.1)
  | inr other ↦ rw other (rw other at (components_of-IsPlain (p ∷ ps) h))
]

pub components-IsPlain : (s : Text) → All IsPlain (components s)
unfolding components
components-IsPlain [] = tt
components-IsPlain (c ∷ s) = elim (Bool-cases (nat_beq c b'/')) [
  | inl slash ↦ rw slash (tt, components_of-IsPlain (pieces s) (pieces-HasNoSlash s))
  | inr other ↦ rw other (components_from-IsPlain (pieces (c ∷ s)) (pieces-HasNoSlash (c ∷ s)))
]
