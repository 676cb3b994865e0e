-- ===== src/Categories/Slug.antt =====
-- The slug rule of shared/ts/src/categories.ts, and what `sluggify` yields.
use streammix.Common.{ℕ, ◌≤◌, ◌≡◌, ◌≢◌, ◌↔◌, ◌⊎◌, refl, true, false, [], ◌∷◌, length, All, arith}
use streammix.Common.Text.{Text}
use streammix.Categories.{dash, is_slug_char, slug_re, is_valid_slug}

-- The rule in words: the characters of [a-z0-9-], no dash first, none last, no two in a row.
abbrev pub IsSlugOrDash : ℕ → Type 0
IsSlugOrDash c = (is_slug_char c ≡ true) ⊎ (c ≡ dash)

abbrev pub NoLeadingDash : Text → Type 0
NoLeadingDash [] = Unit {0}
NoLeadingDash (c ∷ cs) = c ≢ dash

abbrev pub NoTrailingDash : Text → Type 0
NoTrailingDash [] = Unit {0}
NoTrailingDash (c ∷ []) = c ≢ dash
NoTrailingDash (c ∷ d ∷ cs) = NoTrailingDash (d ∷ cs)

abbrev pub NoDoubleDash : Text → Type 0
NoDoubleDash [] = Unit {0}
NoDoubleDash (c ∷ []) = Unit {0}
NoDoubleDash (c ∷ d ∷ cs) = ((c ≢ dash) ⊎ (d ≢ dash)) × NoDoubleDash (d ∷ cs)

dash_not_slug : is_slug_char dash ≡ false
unfolding is_slug_char
dash_not_slug = refl

slug_re→rule :
    (c : ℕ) (cs : Text)
    → slug_re false (c ∷ cs) ≡ true
    → All IsSlugOrDash (c ∷ cs) × NoTrailingDash (c ∷ cs) × NoDoubleDash (c ∷ cs)
unfolding slug_re
slug_re→rule c [] h = ground (arith, dash_not_slug)
slug_re→rule c (d ∷ cs) h = ground (arith, dash_not_slug, slug_re→rule d cs)

rule→slug_re :
    (c : ℕ) (cs : Text)
    → All IsSlugOrDash (c ∷ cs) × NoTrailingDash (c ∷ cs) × NoDoubleDash (c ∷ cs)
    → slug_re false (c ∷ cs) ≡ true
unfolding slug_re
rule→slug_re c [] h = ground (arith, dash_not_slug)
rule→slug_re c (d ∷ cs) h = ground (arith, dash_not_slug, rule→slug_re d cs)

-- The documented rule for a slug.
abbrev pub IsSlug : Text → Type 0
IsSlug t =
    (1 ≤ length t)
    × (length t ≤ 64)
    × All IsSlugOrDash t
    × NoLeadingDash t
    × NoTrailingDash t
    × NoDoubleDash t

-- `isValidSlug` accepts exactly the texts of 1 to 64 characters of [a-z0-9-] with no dash at either
-- end and no two dashes in a row.
pub is_valid_slug_iff : (t : Text) → (is_valid_slug t ≡ true) ↔ IsSlug t
unfolding is_valid_slug slug_re
is_valid_slug_iff [] = ground arith
is_valid_slug_iff (c ∷ cs) = (
  λ h. ground (arith, dash_not_slug, slug_re→rule c cs),
  λ h. ground (arith, dash_not_slug, rule→slug_re c cs),
)

pub slug_re→shape :
    (t : Text)
    → slug_re true t ≡ true
    → All IsSlugOrDash t × NoLeadingDash t × NoTrailingDash t × NoDoubleDash t
unfolding slug_re
slug_re→shape [] h = cc
slug_re→shape (c ∷ cs) h = ground (arith, dash_not_slug, slug_re→rule c cs)
