-- ===== src/Categories.antt =====
-- shared/ts/src/categories.ts: the preset categories and the slugs of custom labels.
pub mod Slug
pub mod Sluggify
use streammix.Common.{
  ℕ, Bool, true, false, not, ◌&&◌, ◌||◌, List, [], ◌∷◌, length, leb, ◌==◌, if◌then◌else◌,
}
use streammix.Common.Text.{Text, text, includes}

abbrev pub custom_category : Text
custom_category = text "custom"

abbrev pub preset_categories : List Text
preset_categories =
    text "mic"
    ∷ text "game"
    ∷ text "music"
    ∷ text "voicechat"
    ∷ text "notifications"
    ∷ text "browser"
    ∷ text "alerts"
    ∷ text "tts"
    ∷ []

unfoldable pub is_preset_category : Text → Bool
is_preset_category value = includes preset_categories value

abbrev pub dash : ℕ
dash = b'-'

-- The class `[a-z0-9]`.
unfoldable pub is_slug_char : ℕ → Bool
is_slug_char c = (leb b'a' c && leb c b'z') || (leb b'0' c && leb c b'9')

-- `replace(/[\u0300-\u036f]/g, "")`
unfoldable pub strip_marks : Text → Text
strip_marks [] = []
strip_marks (c ∷ cs) =
    let rest = strip_marks cs in if leb 0x300 c && leb c 0x36f then rest else c ∷ rest

-- `replace(/[^a-z0-9]+/g, "-")`: `in_run` tells whether the match has begun.
unfoldable pub dash_runs : Bool → Text → Text
dash_runs in_run [] = []
dash_runs in_run (c ∷ cs) =
    let kept = c ∷ dash_runs false cs in
    let swallowed = dash_runs true cs in
    if is_slug_char c then kept else if in_run then swallowed else dash ∷ swallowed

-- The two alternatives of `replace(/^-+|-+$/g, "")`.
unfoldable pub trim_start : Text → Text
trim_start [] = []
trim_start (c ∷ cs) = let rest = trim_start cs in if c == dash then rest else c ∷ cs

abbrev pub is_empty : Text → Bool
is_empty [] = true
is_empty (c ∷ cs) = false

unfoldable pub trim_end : Text → Text
trim_end [] = []
trim_end (c ∷ cs) = let rest = trim_end cs in if c == dash && is_empty rest then [] else c ∷ rest

-- `toLowerCase` and `normalize("NFKD")` are the runtime's.
module _ (to_lower_case normalize_nfkd : Text → Text) where
  unfoldable pub sluggify : Text → Text
  sluggify label =
      trim_end (trim_start (dash_runs false (strip_marks (normalize_nfkd (to_lower_case label)))))

-- `/^[a-z0-9]+(?:-[a-z0-9]+)*$/`, read from left to right; `at_group` tells that a group must begin.
unfoldable pub slug_re : Bool → Text → Bool
slug_re at_group [] = not at_group
slug_re at_group (c ∷ cs) =
    let inside = slug_re false cs in
    let next_group = slug_re true cs in
    if is_slug_char c then inside else not at_group && c == dash && next_group

unfoldable pub is_valid_slug : Text → Bool
is_valid_slug slug = leb 1 (length slug) && leb (length slug) 64 && slug_re true slug
