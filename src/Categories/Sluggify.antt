-- ===== src/Categories/Sluggify.antt =====
-- What `sluggify` of shared/ts/src/categories.ts yields.
use streammix.Common.{
  ◌≡◌, ◌⊎◌, inl, inr, refl, Bool, true, false, not, ◌&&◌, [], ◌∷◌, length, leb, ◌==◌, if◌then◌else◌,
  arith,
}
use streammix.Common.Text.{Text}
use streammix.Common.{All}
use streammix.Categories.Slug.{
  IsSlugOrDash, NoLeadingDash, NoTrailingDash, NoDoubleDash, slug_re→shape,
}
use streammix.Categories.{
  dash, is_slug_char, strip_marks, dash_runs, trim_start, trim_end, sluggify, slug_re,
  is_valid_slug, is_empty,
}

-- Slug characters and single dashes; `in_run` forbids a dash at the front.
tidy : Bool → Text → Bool
tidy in_run [] = true
tidy in_run (c ∷ cs) =
    let inside = tidy false cs in
    let next = tidy true cs in if is_slug_char c then inside else not in_run && c == dash && next

tidy-dash_runs : (b : Bool) (t : Text) → tidy b (dash_runs b t) ≡ true
unfolding tidy dash_runs is_slug_char
tidy-dash_runs b [] = refl
tidy-dash_runs true (c ∷ cs) = ground (arith, tidy-dash_runs true cs, tidy-dash_runs false cs)
tidy-dash_runs false (c ∷ cs) = ground (arith, tidy-dash_runs true cs, tidy-dash_runs false cs)

trim_start_of_tidy : (t : Text) → tidy true t ≡ true → trim_start t ≡ t
unfolding tidy trim_start is_slug_char
trim_start_of_tidy [] h = refl
trim_start_of_tidy (c ∷ cs) h = ground arith

-- A tidy text loses one dash at most at the front, and then begins with a slug character.
tidy-trim_start : (t : Text) → tidy false t ≡ true → tidy true (trim_start t) ≡ true
unfolding tidy trim_start is_slug_char
tidy-trim_start [] h = refl
tidy-trim_start (c ∷ cs) h = ground (arith, trim_start_of_tidy cs)

trim_end-slug_re :
    (t : Text)
    → (tidy false t ≡ true → slug_re false (trim_end t) ≡ true)
      × (tidy true t ≡ true → (is_empty (trim_end t) ≡ true) ⊎ (slug_re true (trim_end t) ≡ true))
unfolding tidy trim_end slug_re
trim_end-slug_re [] = ground arith
trim_end-slug_re (c ∷ cs) = ground (arith, trim_end-slug_re cs)

strip_marks_id : (b : Bool) (t : Text) → slug_re b t ≡ true → strip_marks t ≡ t
unfolding slug_re strip_marks is_slug_char
strip_marks_id b [] h = refl
strip_marks_id b (c ∷ cs) h = ground (arith, strip_marks_id false cs, strip_marks_id true cs)

dash_runs_id : (b : Bool) (t : Text) → slug_re b t ≡ true → dash_runs b t ≡ t
unfolding slug_re dash_runs is_slug_char
dash_runs_id b [] h = refl
dash_runs_id true (c ∷ cs) h = ground (arith, dash_runs_id false cs, dash_runs_id true cs)
dash_runs_id false (c ∷ cs) h = ground (arith, dash_runs_id false cs, dash_runs_id true cs)

trim_start_id : (t : Text) → slug_re true t ≡ true → trim_start t ≡ t
unfolding slug_re trim_start is_slug_char
trim_start_id [] h = refl
trim_start_id (c ∷ cs) h = ground arith

trim_end_id : (b : Bool) (t : Text) → slug_re b t ≡ true → trim_end t ≡ t
unfolding slug_re trim_end is_slug_char
trim_end_id b [] h = refl
trim_end_id b (c ∷ []) h = ground arith
trim_end_id b (c ∷ d ∷ cs) h = ground (arith, trim_end_id false (d ∷ cs), trim_end_id true (d ∷ cs))

empty→eq : (t : Text) → is_empty t ≡ true → t ≡ []
empty→eq [] h = refl
empty→eq (c ∷ cs) h = cc

weaken : (t : Text) → slug_re true t ≡ true → slug_re false t ≡ true
unfolding slug_re
weaken [] h = refl
weaken (c ∷ cs) h = ground arith

-- Characters of [a-z0-9-] only, no dash at either end, no two in a row; a slug unless its length is
-- out of range.
abbrev pub IsSlugUpToLength : Text → Type 0
IsSlugUpToLength s =
    All IsSlugOrDash s
    × NoLeadingDash s
    × NoTrailingDash s
    × NoDoubleDash s
    × (is_valid_slug s ≡ leb 1 (length s) && leb (length s) 64)

shape_of_cases : (s : Text) → (s ≡ []) ⊎ (slug_re true s ≡ true) → IsSlugUpToLength s
unfolding is_valid_slug
shape_of_cases [] h = (tt, tt, tt, tt, ground arith)
shape_of_cases (c ∷ cs) (inl e) = cc
shape_of_cases (c ∷ cs) (inr h) =
    let (a, b, d, e) = slug_re→shape (c ∷ cs) h in (a, b, d, e, ground arith)

module _ (to_lower_case normalize_nfkd : Text → Text) where
  sluggify_cases :
      (label : Text)
      → (sluggify to_lower_case normalize_nfkd label ≡ [])
        ⊎ (slug_re true (sluggify to_lower_case normalize_nfkd label) ≡ true)
  unfolding sluggify
  sluggify_cases label =
      let t = strip_marks (normalize_nfkd (to_lower_case label)) in
      let u = trim_start (dash_runs false t) in
      ground (
        arith,
        empty→eq (trim_end u),
        (trim_end-slug_re u).1 (tidy-trim_start (dash_runs false t) (tidy-dash_runs false t)),
      )

  -- Whatever the runtime's `toLowerCase` and `normalize` return, a slug of `sluggify` holds
  -- characters of [a-z0-9-] only, with no dash at either end and no two in a row. So `isValidSlug`
  -- takes it exactly when it is not empty and not longer than 64.
  pub sluggify_shape :
      (label : Text) → IsSlugUpToLength (sluggify to_lower_case normalize_nfkd label)
  sluggify_shape label =
      shape_of_cases (sluggify to_lower_case normalize_nfkd label) (sluggify_cases label)

  -- `sluggify` is idempotent, if `toLowerCase` and `normalize` leave a text of the shape of `SLUG_RE`, and
  -- the empty text, as they are.
  pub sluggify_idempotent :
      ((t : Text) → slug_re true t ≡ true → to_lower_case t ≡ t)
      → ((t : Text) → slug_re true t ≡ true → normalize_nfkd t ≡ t)
      → to_lower_case [] ≡ []
      → normalize_nfkd [] ≡ []
      → (label : Text)
      → sluggify to_lower_case normalize_nfkd (sluggify to_lower_case normalize_nfkd label)
        ≡ sluggify to_lower_case normalize_nfkd label
  sluggify_idempotent lower nfkd lower_nil nfkd_nil label = elim (sluggify_cases label) [
    | inl e ↦ rw e (
        unfold sluggify in
        rw (lower_nil, nfkd_nil) (unfold strip_marks dash_runs trim_start trim_end in refl))
    | inr h ↦ fixed (sluggify to_lower_case normalize_nfkd label) h
  ]
    where
      fixed : (s : Text) → slug_re true s ≡ true → sluggify to_lower_case normalize_nfkd s ≡ s
      fixed s h =
          unfold sluggify in
          rw
            (
              lower s h,
              nfkd s h,
              strip_marks_id true s h,
              dash_runs_id false s (weaken s h),
              trim_start_id s h,
              trim_end_id true s h,
            )
            refl
