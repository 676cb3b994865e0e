-- ===== src/Platform.antt =====
-- extension/src/platform/detect.ts: the platform and the channel of a page. `new URL` and
-- `toLowerCase` are the runtime's.
pub mod Laws
pub mod Player
pub mod Segments
use streammix.Common.{
  ℕ, Bool, true, false, not, ◌&&◌, ◌||◌, List, [], ◌∷◌, ◌++◌, Option, none, some, leb, length, ◌==◌,
  if◌then◌else◌, all,
}
use streammix.Common.Text.{Text, text, text_eq, includes}

pub data Platform : Type 0 where
  twitch kick : Platform

pub record ChannelLocation : Type 0 where
  pub platform : Platform
  pub channel_name : Text
  pub channel_id : Text

-- The parts of a URL that are looked at.
pub record Url : Type 0 where
  pub hostname : Text
  pub pathname : Text

abbrev pub twitch_reserved : List Text
twitch_reserved =
    text "directory"
    ∷ text "settings"
    ∷ text "videos"
    ∷ text "subscriptions"
    ∷ text "drops"
    ∷ text "wallet"
    ∷ text "search"
    ∷ text "p"
    ∷ text "downloads"
    ∷ text "store"
    ∷ text "broadcast"
    ∷ text "turbo"
    ∷ text "friends"
    ∷ text "inventory"
    ∷ []

abbrev pub kick_reserved : List Text
kick_reserved =
    text "browse"
    ∷ text "categories"
    ∷ text "search"
    ∷ text "dashboard"
    ∷ text "settings"
    ∷ text "subscriptions"
    ∷ text "following"
    ∷ text "messages"
    ∷ text "vods"
    ∷ []

-- The class `[a-z0-9_]`.
unfoldable pub is_name_char : ℕ → Bool
is_name_char c = (leb b'a' c && leb c b'z') || (leb b'0' c && leb c b'9') || c == b'_'

-- `/^[a-z0-9_]{1,64}$/`
unfoldable pub channel_name_re : Text → Bool
channel_name_re s = leb 1 (length s) && leb (length s) 64 && all is_name_char s

-- `replace(/^www\./, "")`
abbrev pub drop_prefix : Text → Text → Option Text
drop_prefix [] s = some s
drop_prefix (p ∷ ps) [] = none
drop_prefix (p ∷ ps) (c ∷ s) = let rest = drop_prefix ps s in if c == p then rest else none

abbrev pub or_else : Option Text → Text → Text
or_else (some s) t = s
or_else none t = t

unfoldable pub strip_www : Text → Text
strip_www hostname = or_else (drop_prefix (text "www.") hostname) hostname

abbrev pub push_first : ℕ → List Text → List Text
push_first c [] = (c ∷ []) ∷ []
push_first c (s ∷ ss) = (c ∷ s) ∷ ss

-- `s.split("/")`
unfoldable pub split_slash : Text → List Text
split_slash [] = [] ∷ []
split_slash (c ∷ cs) =
    let rest = split_slash cs in if c == b'/' then [] ∷ rest else push_first c rest

-- `filter(Boolean)`: the empty segments go.
unfoldable pub filter_segments : List Text → List Text
filter_segments [] = []
filter_segments ([] ∷ ss) = filter_segments ss
filter_segments ((c ∷ s) ∷ ss) = (c ∷ s) ∷ filter_segments ss

abbrev pub prefix_of : Platform → Text
prefix_of twitch = text "twitch:"
prefix_of kick = text "kick:"

unfoldable pub located : Platform → Text → ChannelLocation
located platform first = record {
  platform = platform;
  channel_name = first;
  channel_id = prefix_of platform ++ first;
}

-- `if (RESERVED.has(first)) return null; if (!CHANNEL_NAME_RE.test(first)) return null;`
unfoldable pub accept : Platform → List Text → Text → Option ChannelLocation
unfolding located
accept platform reserved first =
    if includes reserved first
    then none
    else if not (channel_name_re first)
    then none
    else some (located platform first)

unfoldable pub detect_host : Text → Text → Option ChannelLocation
detect_host host first =
    if text_eq host (text "twitch.tv")
    then accept twitch twitch_reserved first
    else if text_eq host (text "kick.com")
    then accept kick kick_reserved first
    else none

module _ (to_lower_case : Text → Text) where
  -- `detectChannel` behind `new URL(href)`.
  unfoldable pub detect_url : Url → Option ChannelLocation
  detect_url url = elim (filter_segments (split_slash url.pathname)) [
    | [] ↦ none
    | segment ∷ rest ↦ detect_host (strip_www url.hostname) (to_lower_case segment)
  ]

  unfoldable pub detect_channel : (Text → Option Url) → Text → Option ChannelLocation
  detect_channel parse_url href = elim (parse_url href) [ none ↦ none | some url ↦ detect_url url ]
