-- ===== src/StaticFiles/Inside.antt =====
-- No path that `safe_path` gives leaves the root.
use curf.Common.{
  ◌≡◌, refl, ap, sym, ◌∙◌, inl, inr, true, Option, none, some, List, [], ◌∷◌, ◌++◌, map, Text,
  arith, Bool-cases, Option-cases, subst, All,
}
use mathlib.Core.List.{append_assoc, append_cancel_right}
use curf.StaticFiles.Names.{IsName, IsPlain, components-IsPlain}
use curf.Common.Equality.{list_beq_iff, nat_key}
use curf.StaticFiles.{
  Component, root_dir, cur_dir, parent_dir, normal, prefix, pop, component_beq, path_beq, ends_in,
  walk, components, ◌>>=◌, before_query, inside, safe_path,
}

component_beq_sound : (c d : Component) → component_beq c d ≡ true → c ≡ d
component_beq_sound root_dir root_dir h = refl
component_beq_sound cur_dir cur_dir h = refl
component_beq_sound parent_dir parent_dir h = refl
component_beq_sound (normal a) (normal b) h = ap normal ((list_beq_iff a b).0 h)
component_beq_sound (prefix a) (prefix b) h = ap prefix ((list_beq_iff a b).0 h)
component_beq_sound _ _ h = cc

path_beq_sound : (p q : List Component) → path_beq p q ≡ true → p ≡ q
path_beq_sound [] [] h = refl
path_beq_sound (c ∷ p) (d ∷ q) h =
    cc (component_beq_sound c d (ground arith), path_beq_sound p q (ground arith))
path_beq_sound _ _ h = cc

ends_in_sound :
    (p base : List Component)
    → ends_in p base ≡ true
    → (above : List Component) × (p ≡ above ++ base)
unfolding ends_in
ends_in_sound [] base h = ([], path_beq_sound [] base h)
ends_in_sound (c ∷ p) base h = elim (Bool-cases (path_beq (c ∷ p) base)) [
  | inl same ↦ ([], path_beq_sound (c ∷ p) base same)
  | inr other ↦ let (above, e) = ends_in_sound p base (ground arith) in (c ∷ above, ap (◌∷◌ c) e)
]

-- Where the walk stands: names on top of what is left of the root.
record IsOver (root result : List Component) : Type 0 where
  names : List Text
  gone : List Component
  left : List Component
  split : root ≡ gone ++ left
  shape : result ≡ map normal names ++ left
  plain : All IsName names

normal-IsOver :
    (n : Text) (root result : List Component)
    → IsName n
    → IsOver root result
    → IsOver root (normal n ∷ result)
normal-IsOver n root result m o = record {
  names = n ∷ o.names;
  gone = o.gone;
  left = o.left;
  split = o.split;
  shape = ap (◌∷◌ (normal n)) o.shape;
  plain = (m, o.plain);
}

pop-tail : (c : Component) (p up : List Component) → pop (c ∷ p) ≡ some up → up ≡ p
pop-tail root_dir p up e = cc
pop-tail cur_dir p up e = ground arith
pop-tail parent_dir p up e = ground arith
pop-tail (normal n) p up e = ground arith
pop-tail (prefix d) p up e = cc

pop-IsOver :
    (root gone left up : List Component) (names : List Text)
    → root ≡ gone ++ left
    → All IsName names
    → pop (map normal names ++ left) ≡ some up
    → IsOver root up
pop-IsOver root gone left up (n ∷ names) s m e = record {
  names = names;
  gone = gone;
  left = left;
  split = s;
  shape = pop-tail (normal n) (map normal names ++ left) up e;
  plain = m.1;
}
pop-IsOver root gone [] up [] s m e = cc
pop-IsOver root gone (c ∷ left) up [] s m e = record {
  names = [];
  gone = gone ++ c ∷ [];
  left = left;
  split = s ∙ sym (append_assoc gone (c ∷ []) left);
  shape = pop-tail c left up e;
  plain = tt;
}

walk-IsOver :
    (cs root result end : List Component)
    → All IsPlain cs
    → IsOver root result
    → walk cs result ≡ some end
    → IsOver root end
unfolding walk
walk-IsOver [] root result end h o e = subst (IsOver root) (ground arith) o
walk-IsOver (normal n ∷ cs) root result end h o e =
    walk-IsOver cs root (normal n ∷ result) end h.1 (normal-IsOver n root result h.0 o) e
walk-IsOver (parent_dir ∷ cs) root result end h o e = elim (Option-cases (pop result)) [
  | inl none_up ↦ cc
  | inr (up, popped) ↦
      walk-IsOver cs root up end h.1
        (pop-IsOver root o.gone o.left up o.names o.split o.plain (ap pop (sym o.shape) ∙ popped))
        (ground arith)
]
walk-IsOver (root_dir ∷ cs) root result end h o e = walk-IsOver cs root result end h.1 o e
walk-IsOver (cur_dir ∷ cs) root result end h o e = walk-IsOver cs root result end h.1 o e
walk-IsOver (prefix d ∷ cs) root result end h o e = cc

-- A first part of a list of names is a list of names.
names-split :
    (above gone : List Component) (names : List Text)
    → map normal names ≡ above ++ gone
    → All IsName names
    → (some_names : List Text) × (above ≡ map normal some_names) × All IsName some_names
names-split [] gone names e m = ([], refl, tt)
names-split (a ∷ above) gone [] e m = cc
names-split (a ∷ above) gone (n ∷ names) e m =
    let (some_names, same, plain) = names-split above gone names (cc) m.1 in
    (n ∷ some_names, cc, (m.0, plain))

inside_sound :
    (root result end : List Component)
    → IsOver root result
    → inside root result ≡ some end
    → (names : List Text) × (end ≡ map normal names ++ root) × All IsName names
unfolding inside
inside_sound root result end o e = elim (Bool-cases (ends_in result root)) [
  | inr other ↦ cc
  | inl within ↦
      let (above, shape) = ends_in_sound result root within in
      let same : map normal o.names ≡ above ++ o.gone =
        append_cancel_right (map normal o.names) (above ++ o.gone) o.left (
          sym o.shape
          ∙ shape
          ∙ ap (λ r. above ++ r) o.split
          ∙ sym (append_assoc above o.gone o.left)) in
      let (names, above_names, plain) = names-split above o.gone o.names same o.plain in
      let done : result ≡ end = ground arith in
      (names, sym done ∙ shape ∙ ap (λ a. a ++ root) above_names, plain)
]

bind-eq-some {ℓ κ} :
    {A : Type ℓ} {B : Type κ} (m : Option A) (k : A → Option B) {b : B}
    → (m >>= k) ≡ some b
    → (a : A) × (m ≡ some a) × (k a ≡ some b)
bind-eq-some none k h = cc
bind-eq-some (some a) k h = (a, refl, h)

-- A path that is served lies under the root: it is the root with names below it, none of them
-- empty, `.` or `..`, and none with a slash in it, whatever the url holds and however it decodes.
pub safe_path-inside :
    (decode : Text → Option Text) (root : List Component) (url_path : Text) (p : List Component)
    → safe_path decode root url_path ≡ some p
    → (names : List Text) × (p ≡ map normal names ++ root) × All IsName names
unfolding safe_path
safe_path-inside decode root url_path p e =
    let (decoded, _, e') = bind-eq-some (decode url_path) _ e in
    let cs = components (before_query decoded) in
    let (result, walked, kept) = bind-eq-some (walk cs root) (inside root) e' in
    let start : IsOver root root = record {
      names = [];
      gone = [];
      left = root;
      split = refl;
      shape = refl;
      plain = tt;
    } in
    inside_sound root result p
      (walk-IsOver cs root root result (components-IsPlain (before_query decoded)) start walked)
      kept
