-- ===== src/Adapter/Path/Inside.antt =====
-- An accepted path stays inside the project (adapter/go/path.go).
use agent_action_visualizer.Adapter.Path.{
  climbs, FileSystem, normalize_inside, normalize_project_path, locate, reject_symlink_escape,
  escapes_project, root_required, PathError, absolute_path,
}
use agent_action_visualizer.Prelude.{
  guard-ok, ◌≡◌, refl, sym, ap, ◌∙◌, subst, ◌⊎◌, inl, inr, true, false, not, ◌&&◌, ◌||◌, some, List,
  [], ◌∷◌, ◌++◌, arith, Bool-cases, Option-cases, ok, All, Text, is_empty, has_prefix, text_eq,
  text_eq_iff, ◌>>=◌, Result-cases, ok_inj, Option, none,
}
use agent_action_visualizer.Prelude.Path.{
  is_abs, rel, rel_parts, render, slash, split_byte, dot, dot_dot, clean_parts, clean_from,
  step_part, onto, join_byte, ups, same_bool, clean, join, absolute,
}

-- A way that does not start by climbing leads into the base.
rel_parts-below :
    (base target parts : List Text)
    → rel_parts base target ≡ some parts
    → (base ++ parts ≡ target) ⊎ ((rest : List Text) × (parts ≡ dot_dot ∷ rest))
unfolding rel_parts
rel_parts-below [] target parts h = inl (cc h)
rel_parts-below (b ∷ base) [] parts h = inr (ups base [], ground (arith, h))
rel_parts-below (b ∷ base) (t ∷ target) parts h = elim (Bool-cases (text_eq b t)) [
  | inl same ↦ elim (rel_parts-below base target parts (ground (arith, same, h))) [
    | inl below ↦ inl (cc (below, (text_eq_iff b t).0 same))
    | inr above ↦ inr above
  ]
  | inr other ↦ inr (ups base (t ∷ target), ground (arith, other, h))
]

climbs-render : (rest : List Text) → climbs (render false (dot_dot ∷ rest)) ≡ true
unfolding climbs render join_byte has_prefix text_eq
climbs-render [] = refl
climbs-render (part ∷ rest) = refl

-- A list of components without `..`.
abbrev pub IsDescent : List Text → Type 0
IsDescent parts = All (λ part. text_eq part dot_dot ≡ false) parts

step_part-IsDescent :
    (out : List Text) (part : Text) → IsDescent out → IsDescent (step_part true out part)
unfolding step_part
step_part-IsDescent [] part h = elim (Bool-cases (is_empty part || text_eq part dot)) [
  | inl skipped ↦ rw (skipped, step_part) tt
  | inr named ↦ elim (Bool-cases (text_eq part dot_dot && true)) [
    | inl up ↦ rw (named, step_part) (rw (up, step_part) tt)
    | inr down ↦ rw (named, step_part) (rw (down, step_part) (ground (arith, down), tt))
  ]
]
step_part-IsDescent (top ∷ out) part h = elim (Bool-cases (is_empty part || text_eq part dot)) [
  | inl skipped ↦ rw (skipped, step_part) h
  | inr named ↦ elim (Bool-cases (text_eq part dot_dot && not (text_eq top dot_dot))) [
    | inl up ↦ rw (named, step_part) (rw (up, step_part) h.1)
    | inr down ↦ rw (named, step_part) (rw (down, step_part) (ground (arith, down, h.0), h))
  ]
]

clean_from-IsDescent :
    (out parts : List Text) → IsDescent out → IsDescent (clean_from true out parts)
unfolding clean_from
clean_from-IsDescent out [] h = h
clean_from-IsDescent out (part ∷ parts) h =
    clean_from-IsDescent (step_part true out part) parts (step_part-IsDescent out part h)

onto-IsDescent : (xs ys : List Text) → IsDescent xs → IsDescent ys → IsDescent (onto xs ys)
onto-IsDescent [] ys h k = k
onto-IsDescent (x ∷ xs) ys h k = onto-IsDescent xs (x ∷ ys) h.1 (h.0, k)

clean_parts-IsDescent : (s : Text) → is_abs s ≡ true → IsDescent (clean_parts s)
unfolding clean_parts
clean_parts-IsDescent s h =
    onto-IsDescent (clean_from (is_abs s) [] (split_byte slash s)) []
      (subst (λ r. IsDescent (clean_from r [] (split_byte slash s))) (sym h)
        (clean_from-IsDescent [] (split_byte slash s) tt))
      tt

-- Only a way that does not climb has no `..` in front.
rel-below :
    (root target relative : Text)
    → rel root target ≡ some relative
    → climbs relative ≡ false
    → (rest : List Text) × (clean_parts root ++ rest ≡ clean_parts target)
      × (relative ≡ render false rest)
unfolding rel
rel-below root target relative h low = elim (Bool-cases (same_bool (is_abs root) (is_abs target))) [
  | inr mixed ↦ absurd (ground (arith, mixed, h))
  | inl alike ↦ elim (Option-cases (rel_parts (clean_parts root) (clean_parts target))) [
    | inl no_way ↦ absurd (ground (arith, alike, no_way, h))
    | inr (parts, way) ↦
        let named : relative ≡ render false parts = ground (arith, alike, way, h) in
        elim (rel_parts-below (clean_parts root) (clean_parts target) parts way) [
          | inl below ↦ (parts, below, named)
          | inr (rest, above) ↦
              let up : climbs relative ≡ true =
                ap climbs (named ∙ ap (render false) above) ∙ climbs-render rest in
              absurd (ground (arith, up, low))
        ]
  ]
]

is_abs-clean : (s : Text) → is_abs s ≡ true → is_abs (clean s) ≡ true
unfolding clean
is_abs-clean s h = ap is_abs (ap (λ b. render b (clean_parts s)) h) ∙ unfold render is_abs in refl

is_abs-join : (s t : Text) → is_abs s ≡ true → is_abs (join s t) ≡ true
unfolding join
is_abs-join [] t h = absurd (unfold is_abs in cc)
is_abs-join (c ∷ s) [] h = is_abs-clean (c ∷ s) h
is_abs-join (c ∷ s) (d ∷ t) h = is_abs-clean ((c ∷ s) ++ slash ∷ d ∷ t) (unfold is_abs in h)

-- A working directory that the system gives is an absolute path.
abbrev pub IsRooted : Option Text → Type 0
IsRooted none = Unit {0}
IsRooted (some home) = is_abs home ≡ true

is_abs-absolute :
    (home : Option Text) (path out : Text)
    → IsRooted home
    → absolute home path ≡ some out
    → is_abs out ≡ true
unfolding absolute
is_abs-absolute none path out h found = elim (Bool-cases (is_abs path)) [
  | inl rooted ↦
      let same : clean path ≡ out = ground (arith, rooted, found) in
      ap is_abs (sym same) ∙ is_abs-clean path rooted
  | inr relative ↦ absurd (ground (arith, relative, found))
]
is_abs-absolute (some home) path out h found = elim (Bool-cases (is_abs path)) [
  | inl rooted ↦
      let same : clean path ≡ out = ground (arith, rooted, found) in
      ap is_abs (sym same) ∙ is_abs-clean path rooted
  | inr relative ↦
      let same : join home path ≡ out = ground (arith, relative, found) in
      ap is_abs (sym same) ∙ is_abs-join home path h
]

-- Both paths became absolute, and are the ones that were compared.
pub normalize_project_path-ok :
    (fs : FileSystem) (root value out : Text)
    → normalize_project_path fs root value ≡ ok out
    → (base target : Text) × (absolute fs.working_directory root ≡ some base)
      × (absolute fs.working_directory (locate base value) ≡ some target)
      × (normalize_inside fs base target ≡ ok out)
unfolding normalize_project_path absolute_path
normalize_project_path-ok fs root value out h =
    let checked = guard-ok (not (is_empty root)) root_required _ out h in
    elim (Option-cases (absolute fs.working_directory root)) [
      | inl lost ↦ absurd (ground (arith, lost, checked.1))
      | inr (base, at) ↦ elim (Option-cases (absolute fs.working_directory (locate base value))) [
        | inl lost ↦ absurd (ground (arith, at, lost, checked.1))
        | inr (target, there) ↦ (base, target, at, there, ground (arith, at, there, checked.1))
      ]
    ]

All-behind : (xs ys : List Text) → IsDescent (xs ++ ys) → IsDescent ys
All-behind [] ys h = h
All-behind (x ∷ xs) ys h = All-behind xs ys h.1

abbrev pub Accepted : FileSystem → Text → Text → Text → Type 0
Accepted fs root value out =
    (base target : Text) × (rest : List Text) × (absolute fs.working_directory root ≡ some base)
    × (absolute fs.working_directory (locate base value) ≡ some target)
    × (clean_parts base ++ rest ≡ clean_parts target)
    × IsDescent rest
    × (out ≡ clean (render false rest))

pub normalize_inside-below :
    (fs : FileSystem) (root abs out : Text)
    → normalize_inside fs root abs ≡ ok out
    → (relative : Text) × (rel root abs ≡ some relative)
      × (climbs relative ≡ false)
      × (reject_symlink_escape fs root abs ≡ ok tt)
      × (out ≡ clean relative)
unfolding normalize_inside
normalize_inside-below fs root abs out h = elim (Option-cases (rel root abs)) [
  | inl no_way ↦ absurd (ground (arith, no_way, h))
  | inr (relative, way) ↦
      let opened = sym (rw (way, normalize_inside) refl) ∙ h in
      let low =
        guard-ok (not (climbs relative)) escapes_project
          (reject_symlink_escape fs root abs >>= λ _. ok (clean relative)) out opened in
      elim (Result-cases (reject_symlink_escape fs root abs)) [
        | inl (u, good) ↦ (
          relative,
          way,
          ground (arith, low.0),
          good,
          sym (ok_inj {E = PathError} _ _ (sym (rw good refl) ∙ low.1)),
        )
        | inr (e, bad) ↦ absurd (ground (arith, bad, low.1))
      ]
]

-- Let the working directory, where the system gives one, be an absolute path. Then for a path that
-- NormalizeProjectPath accepts, the root and the path, taken from the root, have absolute paths,
-- and the path lies in the project: its cleaned components are those of the root and then others,
-- none of which is `..`, and the result is the cleaned path of these others.
pub normalize_project_path-Accepted :
    (fs : FileSystem) (root value out : Text)
    → IsRooted fs.working_directory
    → normalize_project_path fs root value ≡ ok out
    → Accepted fs root value out
normalize_project_path-Accepted fs root value out home h =
    let (base, target, at, there, inside) = normalize_project_path-ok fs root value out h in
    let (relative, way, low, good, same) = normalize_inside-below fs base target out inside in
    let (rest, below, named) = rel-below base target relative way low in
    let descent =
      clean_parts-IsDescent target
        (is_abs-absolute fs.working_directory (locate base value) target home there) in
    (
      base,
      target,
      rest,
      at,
      there,
      below,
      All-behind (clean_parts base) rest (subst IsDescent (sym below) descent),
      same ∙ ap clean named,
    )
