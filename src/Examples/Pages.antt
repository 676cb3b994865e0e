-- ===== src/Examples/Pages.antt =====
-- Pages, slugs and preferences on concrete inputs.
use streammix.Common.{
  ℕ, ◌+◌, ◌≡◌, ◌↔◌, true, ◌&&◌, [], ◌∷◌, Option, some, none, refl, inr, if◌then◌else◌, leb, map,
}
use streammix.Common.Assoc.{get}
use streammix.Common.Number.{num}
use streammix.Common.Text.{Text, text, text_eq}
use streammix.Categories.{
  is_preset_category, is_slug_char, is_valid_slug, sluggify, strip_marks, dash_runs, trim_start,
  trim_end,
}
use streammix.Categories.Slug.{IsSlug, is_valid_slug_iff}
use streammix.Platform.{
  twitch, Url, located, detect_channel, detect_url, detect_host, accept, strip_www, split_slash,
  filter_segments, channel_name_re, is_name_char,
}
use streammix.Platform.Laws.{IsChannelPage, detect_channel_iff}
use streammix.Store.{ChannelSetting, Prefs, default_setting, setting_or, own_or, effective_setting}
use streammix.Store.Laws.{effective_setting_lem}

-- Lower case of ASCII, and NFKD, which leaves ASCII as it is.
abbrev lower_char : ℕ → ℕ
lower_char c = if leb b'A' c && leb c b'Z' then c + 32 else c

abbrev lower : Text → Text
lower = map lower_char

abbrev nfkd : Text → Text
nfkd t = t

sluggify_test :
    (sluggify lower nfkd (text " Drum & Bass! ") ≡ text "drum-bass")
    × (sluggify lower nfkd (text "!!!") ≡ [])
unfolding sluggify strip_marks dash_runs trim_start trim_end is_slug_char
sluggify_test = (refl, refl)

is_valid_slug_iff_example : (is_valid_slug (text "drum-bass") ≡ true) ↔ IsSlug (text "drum-bass")
is_valid_slug_iff_example = is_valid_slug_iff (text "drum-bass")

abbrev address : Text
address = text "https://www.twitch.tv/Some_One"

abbrev page : Url
page = record { hostname = text "www.twitch.tv"; pathname = text "/Some_One" }

abbrev parse_url : Text → Option Url
parse_url href = if text_eq href address then some page else none

page_test : detect_channel lower parse_url address ≡ some (located twitch (text "some_one"))
unfolding detect_channel detect_url detect_host accept strip_www split_slash filter_segments
    channel_name_re is_name_char located
page_test = refl

detect_channel_iff_example :
    (detect_channel lower parse_url address ≡ some (located twitch (text "some_one"))) ↔ (
      (url : Url) × (parse_url address ≡ some url)
      × IsChannelPage lower url (located twitch (text "some_one")))
detect_channel_iff_example =
    detect_channel_iff lower parse_url address (located twitch (text "some_one"))

abbrev quiet : ChannelSetting
quiet = record { gain = some (num 0); muted = some true; permanently_off = none }

abbrev saved_global : Prefs
saved_global = (text "game", quiet) ∷ []

effective_setting_lem_example :
    effective_setting (text "my-game") (text "game") [] saved_global
    ≡ setting_or
        (own_or
          (get (text "my-game") [])
          (if is_preset_category (text "game") then get (text "game") saved_global else none))
        default_setting
effective_setting_lem_example =
    effective_setting_lem (text "my-game") (text "game") [] saved_global refl
      (inr (unfold is_preset_category in refl))
