-- ===== src/Platform/Segments.antt =====
-- The parts of a host and a path that extension/src/platform/detect.ts looks at, said of the texts themselves.
use streammix.Common.{
  ℕ, ◌≤◌, ◌≡◌, ◌≢◌, ◌↔◌, ◌⊎◌, refl, ap, ◌∙◌, true, false, List, [], ◌∷◌, ◌++◌, length, All, all,
  arith, none, some, Option-cases, subst, ◌==◌, Bool-cases, inl, inr,
}
use streammix.Common.Text.{Text, text}
use streammix.Platform.{
  is_name_char, channel_name_re, strip_www, drop_prefix, split_slash, filter_segments,
}

-- [a-z0-9_]
abbrev pub IsNameChar : ℕ → Type 0
IsNameChar c = (97 ≤ c × c ≤ 122) ⊎ ((48 ≤ c × c ≤ 57) ⊎ (c ≡ 95))

-- A name of 1 to 64 of these characters.
abbrev pub IsName : Text → Type 0
IsName s = (1 ≤ length s) × (length s ≤ 64) × All IsNameChar s

all-is_name_char_iff : (s : Text) → (all is_name_char s ≡ true) ↔ All IsNameChar s
unfolding is_name_char
all-is_name_char_iff [] = (λ h. tt, λ h. refl)
all-is_name_char_iff (c ∷ s) =
    let (there, back) = all-is_name_char_iff s in
    (λ h. (ground arith, there (ground arith)), λ (first, rest). ground (arith, back rest))

pub channel_name_re_iff : (s : Text) → (channel_name_re s ≡ true) ↔ IsName s
unfolding channel_name_re
channel_name_re_iff s =
    let (there, back) = all-is_name_char_iff s in
    (
      λ h. (ground arith, ground arith, there (ground arith)),
      λ (some_char, few, chars). ground (arith, back chars),
    )

-- The host itself, or the host behind "www.".
abbrev pub IsHostOf : Text → Text → Type 0
IsHostOf host hostname = (hostname ≡ host) ⊎ (hostname ≡ text "www." ++ host)

-- The first piece of the path that is not empty: only slashes stand before it, and a slash or nothing behind.
pub record IsFirstSegment (path segment : Text) : Type 0 where
  pub leading : Text
  pub rest : Text
  pub whole : path ≡ leading ++ (segment ++ rest)
  pub slashes : All (λ c. c ≡ b'/') leading
  pub no_slash : All (λ c. c ≢ b'/') segment
  pub not_empty : segment ≢ []
  pub ended : (rest ≡ []) ⊎ ((after : Text) × (rest ≡ b'/' ∷ after))

-- A piece of the path, from its first character up to a slash or the end.
record Piece (path : Text) : Type 0 where
  piece : Text
  rest : Text
  others : List Text
  split : split_slash path ≡ piece ∷ others
  whole : path ≡ piece ++ rest
  no_slash : All (λ c. c ≢ b'/') piece
  ended : (rest ≡ []) ⊎ ((after : Text) × (rest ≡ b'/' ∷ after))

first-Piece : (path : Text) → Piece path
unfolding split_slash
first-Piece [] = record {
  piece = [];
  rest = [];
  others = [];
  split = refl;
  whole = refl;
  no_slash = tt;
  ended = inl refl;
}
first-Piece (c ∷ cs) = elim (Bool-cases (c == b'/')) [
  | inl slash ↦ record {
    piece = [];
    rest = c ∷ cs;
    others = split_slash cs;
    split = rw slash refl;
    whole = refl;
    no_slash = tt;
    ended = inr (cs, ground arith);
  }
  | inr other ↦
      let p = first-Piece cs in
      record {
        piece = c ∷ p.piece;
        rest = p.rest;
        others = p.others;
        split = rw (other, p.split) refl;
        whole = ap (λ t. c ∷ t) p.whole;
        no_slash = (ground arith, p.no_slash);
        ended = p.ended;
      }
]

IsFirstSegment-sound :
    (path segment : Text) (others : List Text)
    → filter_segments (split_slash path) ≡ segment ∷ others
    → IsFirstSegment path segment
unfolding split_slash filter_segments
IsFirstSegment-sound [] segment others h = absurd (ground arith)
IsFirstSegment-sound (c ∷ cs) segment others h = elim (Bool-cases (c == b'/')) [
  | inl slash ↦
      let more = IsFirstSegment-sound cs segment others (rw (slash, filter_segments) at h) in
      record {
        leading = c ∷ more.leading;
        rest = more.rest;
        whole = ap (λ t. c ∷ t) more.whole;
        slashes = (ground arith, more.slashes);
        no_slash = more.no_slash;
        not_empty = more.not_empty;
        ended = more.ended;
      }
  | inr other ↦
      let p = first-Piece cs in
      let same : c ∷ p.piece ≡ segment = ground (arith, p.split) in
      subst (IsFirstSegment (c ∷ cs)) same (record {
        leading = [];
        rest = p.rest;
        whole = ap (λ t. c ∷ t) p.whole;
        slashes = tt;
        no_slash = (ground arith, p.no_slash);
        not_empty = ground arith;
        ended = p.ended;
      })
]

split_slash-piece :
    (piece rest : Text)
    → All (λ c. c ≢ b'/') piece
    → (rest ≡ []) ⊎ ((after : Text) × (rest ≡ b'/' ∷ after))
    → (others : List Text) × (split_slash (piece ++ rest) ≡ piece ∷ others)
unfolding split_slash
split_slash-piece [] rest no_slash (inl e) = ([], rw e refl)
split_slash-piece [] rest no_slash (inr (after, e)) = (split_slash after, rw e refl)
split_slash-piece (c ∷ cs) rest (first, no_slash) ended =
    let (others, e) = split_slash-piece cs rest no_slash ended in
    let other : (c == b'/') ≡ false = ground arith in (others, rw (other, e) refl)

split_slash-leading :
    (leading path : Text)
    → All (λ c. c ≡ b'/') leading
    → filter_segments (split_slash (leading ++ path)) ≡ filter_segments (split_slash path)
unfolding split_slash filter_segments
split_slash-leading [] path slashes = refl
split_slash-leading (c ∷ cs) path (first, slashes) =
    let slash : (c == b'/') ≡ true = ground arith in
    rw (slash, filter_segments) (split_slash-leading cs path slashes)

filter_segments-first :
    (segment : Text) (others : List Text)
    → segment ≢ []
    → filter_segments (segment ∷ others) ≡ segment ∷ filter_segments others
unfolding filter_segments
filter_segments-first [] others not_empty = absurd (not_empty refl)
filter_segments-first (c ∷ cs) others not_empty = refl

IsFirstSegment-complete :
    (path segment : Text)
    → IsFirstSegment path segment
    → (others : List Text) × (filter_segments (split_slash path) ≡ segment ∷ others)
IsFirstSegment-complete path segment f =
    let (others, e) = split_slash-piece segment f.rest f.no_slash f.ended in
    (
      filter_segments others,
      ap (λ t. filter_segments (split_slash t)) f.whole
          ∙ split_slash-leading f.leading (segment ++ f.rest) f.slashes
          ∙ ap filter_segments e
          ∙ filter_segments-first segment others f.not_empty,
    )

-- `segments[0]` is the first piece of the path that is not empty.
pub IsFirstSegment-iff :
    (path segment : Text)
    → ((others : List Text) × (filter_segments (split_slash path) ≡ segment ∷ others))
      ↔ IsFirstSegment path segment
IsFirstSegment-iff path segment = (
  λ (others, e). IsFirstSegment-sound path segment others e,
  λ f. IsFirstSegment-complete path segment f,
)

drop_prefix_sound : (prefix s rest : Text) → drop_prefix prefix s ≡ some rest → s ≡ prefix ++ rest
drop_prefix_sound [] s rest h = ground arith
drop_prefix_sound (p ∷ ps) [] rest h = absurd (ground arith)
drop_prefix_sound (p ∷ ps) (c ∷ s) rest h = ground (arith, drop_prefix_sound ps s rest)

-- What is left of a host is a host without "www." exactly if it was that host, or that host behind "www.".
pub strip_www_iff :
    (hostname host : Text)
    → drop_prefix (text "www.") host ≡ none
    → (strip_www hostname ≡ host) ↔ IsHostOf host hostname
unfolding strip_www
strip_www_iff hostname host bare = (
  λ h. elim (Option-cases (drop_prefix (text "www.") hostname)) [
    | inl e ↦ inl (rw e at h)
    | inr (rest, e) ↦
        let same : rest ≡ host = rw e at h in
        inr (drop_prefix_sound (text "www.") hostname rest e ∙ ap (λ t. text "www." ++ t) same)
  ],
  λ known. elim known [ inl e ↦ rw (e, bare) refl | inr e ↦ rw e refl ],
)
