-- ===== src/Http/Paths.antt =====
-- Which paths name a schedule.
use mathlib.Core.List.{append-nil, append_assoc}
use kokoro_scheduler.Base.{
  sym, subst, ◌↔◌, ◌&&◌, text_eq→eq, ℕ, ◌≡◌, refl, ap, ◌∙◌, inl, inr, true, false, List, [], ◌∷◌,
  ◌++◌, arith, ◌==◌, Text, ◌⊎◌, codes, some, text_eq, has_prefix, Bool-cases,
}
use kokoro_scheduler.Http.Routing.{route, is_action, schedules_path_prefix, parse_schedule_path}
use kokoro_scheduler.Cron.Calculator.{drop_prefix}
use kokoro_scheduler.Cron.Words.{split_from, contains_byte, split}
use kokoro_scheduler.Domain.Identity.{are_name_bytes, is_valid_name}

abbrev slash : ℕ
slash = b'/'

-- What follows the first part of a path.
abbrev behind : List Text → Text
behind [] = []
behind (y ∷ ys) = slash ∷ (y ++ behind ys)

split_from-slash :
    (part s : Text) (c : ℕ)
    → (c == slash) ≡ true
    → split_from slash part (c ∷ s) ≡ part ∷ split_from slash [] s
unfolding split_from
split_from-slash part s c h = rw (h, split_from)

split_from-other :
    (part s : Text) (c : ℕ)
    → (c == slash) ≡ false
    → split_from slash part (c ∷ s) ≡ split_from slash (part ++ c ∷ []) s
unfolding split_from
split_from-other part s c h = rw (h, split_from)

split_from-join :
    (part s : Text)
    → (y : Text) × (ys : List Text) × (split_from slash part s ≡ y ∷ ys)
      × (y ++ behind ys ≡ part ++ s)
unfolding split_from
split_from-join part [] = (part, [], refl, refl)
split_from-join part (c ∷ s) = elim (Bool-cases (c == slash)) [
  | inl same ↦
      let (y, ys, e, joined) = split_from-join [] s in
      let c_slash : slash ≡ c = ground (arith, same) in
      (
        part,
        y ∷ ys,
        split_from-slash part s c same ∙ ap (λ (zs : List Text). part ∷ zs) e,
        ap (λ (rest : Text). part ++ slash ∷ rest) joined ∙ ap (λ (d : ℕ). part ++ d ∷ s) c_slash,
      )
  | inr other ↦
      let (y, ys, e, joined) = split_from-join (part ++ c ∷ []) s in
      (y, ys, split_from-other part s c other ∙ e, joined ∙ append_assoc part (c ∷ []) s)
]

-- A part without a slash is not split.
split_from-clean :
    (part s t : Text)
    → contains_byte slash s ≡ false
    → (split_from slash part s ≡ (part ++ s) ∷ [])
      × (split_from slash part (s ++ slash ∷ t) ≡ (part ++ s) ∷ split_from slash [] t)
unfolding split_from contains_byte
split_from-clean part [] t h = (rw append-nil refl, rw append-nil refl)
split_from-clean part (c ∷ s) t h = elim (Bool-cases (c == slash)) [
  | inl same ↦ cc (rw same at h)
  | inr other ↦
      let (whole, parted) = split_from-clean (part ++ c ∷ []) s t (rw other at h) in
      (
        split_from-other part s c other ∙ rw (append_assoc part (c ∷ []) s) at whole,
        split_from-other part (s ++ slash ∷ t) c other
            ∙ rw (append_assoc part (c ∷ []) s) at parted,
      )
]

has_prefix-drop : (p s : Text) → has_prefix p s ≡ true → p ++ drop_prefix p s ≡ s
unfolding has_prefix drop_prefix
has_prefix-drop [] s h = refl
has_prefix-drop (a ∷ p) [] h = cc
has_prefix-drop (a ∷ p) (b ∷ s) h = elim (Bool-cases (a == b)) [
  | inl same ↦
      let e : a ≡ b = ground (arith, same) in rw (e, has_prefix-drop p s (rw same at h)) refl
  | inr other ↦ cc (rw other at h)
]

drop_prefix-append : (p s : Text) → (has_prefix p (p ++ s) ≡ true) × (drop_prefix p (p ++ s) ≡ s)
unfolding has_prefix drop_prefix
drop_prefix-append [] s = (refl, refl)
drop_prefix-append (a ∷ p) s =
    let (whole, rest) = drop_prefix-append p s in (ground (arith, whole), rest)

are_name_bytes-clean : (s : Text) → are_name_bytes s ≡ true → contains_byte slash s ≡ false
unfolding are_name_bytes contains_byte
are_name_bytes-clean [] h = refl
are_name_bytes-clean (c ∷ s) h = ground (arith, are_name_bytes-clean s)

abbrev pub with_action : Text → Text
with_action [] = []
with_action (c ∷ action) = b'/' ∷ c ∷ action

-- The path of a schedule, with an action behind it or none.
abbrev pub schedule_path : Text → Text → Text
schedule_path name action = schedules_path_prefix ++ (name ++ with_action action)

abbrev pub IsAction : Text → Type 0
IsAction action = (action ≡ []) ⊎ ((action ≡ codes "pause") ⊎ (action ≡ codes "resume"))

is_action-IsAction : (action : Text) → is_action action ≡ true → IsAction action
is_action-IsAction action h = elim (Bool-cases (text_eq action (codes "pause"))) [
  | inl same ↦ inr (inl (text_eq→eq action (codes "pause") same))
  | inr other ↦ inr (inr (text_eq→eq action (codes "resume") (rw other at h)))
]

is_valid_name-clean : (name : Text) → is_valid_name name ≡ true → contains_byte slash name ≡ false
unfolding is_valid_name contains_byte
is_valid_name-clean [] h = cc
is_valid_name-clean (c ∷ s) h = ground (arith, are_name_bytes-clean s)

with_action-slash : (action : Text) → is_action action ≡ true → b'/' ∷ action ≡ with_action action
unfolding text_eq
with_action-slash [] h = cc
with_action-slash (c ∷ action) h = refl

route-name :
    (y name action : Text)
    → route (y ∷ []) ≡ some (name, action)
    → (is_valid_name name ≡ true) × IsAction action × (y ++ [] ≡ name ++ with_action action)
unfolding route
route-name y name action h = elim (Bool-cases (is_valid_name y)) [
  | inl valid ↦
      let e : (y, []) ≡ (name, action) = cc (rw valid at h) in
      let same : y ≡ name = ap (λ (x : Text × Text). x.0) e in
      let none_left : [] ≡ action = ap (λ (x : Text × Text). x.1) e in
      (
        subst (λ (n : Text). is_valid_name n ≡ true) same valid,
        inl (sym none_left),
        ap (λ (x : Text × Text). x.0 ++ with_action x.1) e,
      )
  | inr bad ↦ cc (rw bad at h)
]

route-IsAction :
    (y a name action : Text)
    → route (y ∷ a ∷ []) ≡ some (name, action)
    → (is_valid_name name ≡ true)
      × IsAction action
      × (y ++ b'/' ∷ (a ++ []) ≡ name ++ with_action action)
unfolding route
route-IsAction y a name action h = elim (Bool-cases (is_valid_name y && is_action a)) [
  | inl valid ↦
      let e : (y, a) ≡ (name, action) = cc (rw valid at h) in
      let known : is_action a ≡ true = ground (arith, valid) in
      let named : is_valid_name y ≡ true = ground (arith, valid) in
      (
        subst (λ (n : Text). is_valid_name n ≡ true) (ap (λ (x : Text × Text). x.0) e) named,
        subst IsAction (ap (λ (x : Text × Text). x.1) e) (is_action-IsAction a known),
        ap (λ (x : Text). y ++ slash ∷ x) (append-nil a)
            ∙ ap (λ (x : Text). y ++ x) (with_action-slash a known)
            ∙ ap (λ (x : Text × Text). x.0 ++ with_action x.1) e,
      )
  | inr bad ↦ cc (rw bad at h)
]

route-parts :
    (y : Text) (ys : List Text) (name action : Text)
    → route (y ∷ ys) ≡ some (name, action)
    → (is_valid_name name ≡ true) × IsAction action × (y ++ behind ys ≡ name ++ with_action action)
unfolding route
route-parts y [] name action h = route-name y name action h
route-parts y (a ∷ []) name action h = route-IsAction y a name action h
route-parts y (a ∷ b ∷ ys) name action h = cc

parse_schedule_path_sound :
    (path name action : Text)
    → parse_schedule_path path ≡ some (name, action)
    → (is_valid_name name ≡ true) × IsAction action × (path ≡ schedule_path name action)
unfolding parse_schedule_path split
parse_schedule_path_sound path name action h =
    elim (Bool-cases (has_prefix schedules_path_prefix path)) [
      | inl inside ↦
          let rest = drop_prefix schedules_path_prefix path in
          let (y, ys, parts, joined) = split_from-join [] rest in
          let routed : route (y ∷ ys) ≡ some (name, action) =
            ap route (sym parts) ∙ rw inside at h in
          let (valid, known, same) = route-parts y ys name action routed in
          (
            valid,
            known,
            sym (has_prefix-drop schedules_path_prefix path inside)
                ∙ ap (λ (x : Text). schedules_path_prefix ++ x) (sym joined ∙ same),
          )
      | inr outside ↦ cc (rw outside at h)
    ]

route_complete :
    (name action : Text)
    → is_valid_name name ≡ true
    → IsAction action
    → route (split_from slash [] (name ++ with_action action)) ≡ some (name, action)
unfolding route split_from text_eq
route_complete name action valid (inl bare) =
    let (whole, parted) = split_from-clean [] name [] (is_valid_name-clean name valid) in
    rw (bare, append-nil, whole, valid) refl
route_complete name action valid (inr (inl known)) =
    let (whole, parted) =
      split_from-clean [] name (codes "pause") (is_valid_name-clean name valid) in
    rw (known, parted, valid) refl
route_complete name action valid (inr (inr known)) =
    let (whole, parted) =
      split_from-clean [] name (codes "resume") (is_valid_name-clean name valid) in
    rw (known, parted, valid) refl

parse_schedule_path_complete :
    (name action : Text)
    → is_valid_name name ≡ true
    → IsAction action
    → parse_schedule_path (schedule_path name action) ≡ some (name, action)
unfolding parse_schedule_path split
parse_schedule_path_complete name action valid known =
    let (inside, rest) = drop_prefix-append schedules_path_prefix (name ++ with_action action) in
    rw (inside, rest) (route_complete name action valid known)

-- The path of a request is routed to a schedule and an action exactly if it is the path that is built
-- from them: the prefix, a valid name, and a slash and `pause` or `resume`, or nothing more.
pub parse_schedule_path_iff :
    (path name action : Text)
    → (parse_schedule_path path ≡ some (name, action))
      ↔ ((is_valid_name name ≡ true) × IsAction action × (path ≡ schedule_path name action))
parse_schedule_path_iff path name action = (
  parse_schedule_path_sound path name action,
  λ built.
      ap parse_schedule_path built.2 ∙ parse_schedule_path_complete name action built.0 built.1,
)
