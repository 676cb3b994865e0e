-- ===== src/Platform/Laws.antt =====
-- Which pages extension/src/platform/detect.ts takes for a channel.
use streammix.Common.{
  ◌≡◌, ◌↔◌, refl, ap, ◌∙◌, sym, subst, true, false, List, [], ◌∷◌, ◌++◌, Option, some, some-ne-none,
  arith, Bool-cases, Option-cases, inl, inr,
}
use streammix.Common.Text.{Text, text, text_eq, text_eq_iff, includes}
use streammix.Platform.Segments.{
  IsHostOf, IsFirstSegment, IsName, strip_www_iff, IsFirstSegment-iff, channel_name_re_iff,
}
use streammix.Platform.{
  Platform, twitch, kick, ChannelLocation, Url, twitch_reserved, kick_reserved, channel_name_re,
  strip_www, filter_segments, split_slash, prefix_of, located, accept, detect_host, detect_url,
  detect_channel,
}

abbrev pub reserved_of : Platform → List Text
reserved_of twitch = twitch_reserved
reserved_of kick = kick_reserved

abbrev pub id_prefix : Platform → Text
id_prefix twitch = text "twitch:"
id_prefix kick = text "kick:"

abbrev pub host_of : Platform → Text
host_of twitch = text "twitch.tv"
host_of kick = text "kick.com"

-- What a location says of the page.
pub record IsChannelPage (to_lower_case : Text → Text) (url : Url) (loc : ChannelLocation)
    : Type 0 where
  pub host : IsHostOf (host_of loc.platform) url.hostname
  pub segment : Text
  pub first : IsFirstSegment url.pathname segment
  pub name : loc.channel_name ≡ to_lower_case segment
  pub shape : IsName loc.channel_name
  pub free : includes (reserved_of loc.platform) loc.channel_name ≡ false
  pub id : loc.channel_id ≡ id_prefix loc.platform ++ loc.channel_name

-- What `new URL` left in the host is one of the two hosts, which do not begin with "www.".
host_iff :
    (p : Platform) (hostname : Text)
    → (strip_www hostname ≡ host_of p) ↔ IsHostOf (host_of p) hostname
host_iff twitch hostname = strip_www_iff hostname (host_of twitch) refl
host_iff kick hostname = strip_www_iff hostname (host_of kick) refl

id_prefix_lem : (p : Platform) → prefix_of p ≡ id_prefix p
id_prefix_lem twitch = refl
id_prefix_lem kick = refl

accept_sound :
    (p : Platform) (reserved : List Text) (first : Text) (loc : ChannelLocation)
    → accept p reserved first ≡ some loc
    → (loc ≡ located p first) × (channel_name_re first ≡ true) × (includes reserved first ≡ false)
unfolding accept
accept_sound p reserved first loc h = ground arith

abbrev Sound : Text → Text → ChannelLocation → Type 0
Sound host first loc =
    (host ≡ host_of loc.platform)
    × (loc.channel_name ≡ first)
    × (channel_name_re first ≡ true)
    × (includes (reserved_of loc.platform) first ≡ false)
    × (loc.channel_id ≡ prefix_of loc.platform ++ first)

accept_on :
    (p : Platform) (host first : Text) (loc : ChannelLocation)
    → host ≡ host_of p
    → accept p (reserved_of p) first ≡ some loc
    → Sound host first loc
accept_on p host first loc same h =
    let (found, shape, free) = accept_sound p (reserved_of p) first loc h in
    subst (Sound host first) (sym found) (unfold located in (same, refl, shape, free, refl))

detect_host-Sound :
    (host first : Text) (loc : ChannelLocation)
    → detect_host host first ≡ some loc
    → Sound host first loc
unfolding detect_host
detect_host-Sound host first loc h = elim (Bool-cases (text_eq host (text "twitch.tv"))) [
  | inl t ↦ accept_on twitch host first loc ((text_eq_iff host (text "twitch.tv")).0 t) (rw t at h)
  | inr nt ↦ elim (Bool-cases (text_eq host (text "kick.com"))) [
    | inl k ↦
        accept_on kick host first loc ((text_eq_iff host (text "kick.com")).0 k) (rw (nt, k) at h)
    | inr nk ↦ absurd (some-ne-none (sym (rw (nt, nk) at h)))
  ]
]

detect_host_complete :
    (p : Platform) (first : Text)
    → channel_name_re first ≡ true
    → includes (reserved_of p) first ≡ false
    → detect_host (host_of p) first ≡ some (located p first)
unfolding detect_host accept
detect_host_complete twitch first shape free = ground arith
detect_host_complete kick first shape free = ground arith

located_lem :
    (loc : ChannelLocation)
    → loc.channel_id ≡ prefix_of loc.platform ++ loc.channel_name
    → located loc.platform loc.channel_name ≡ loc
unfolding located
located_lem loc e = ground arith

module _ (to_lower_case : Text → Text) where
  detect_url_sound :
      (url : Url) (loc : ChannelLocation) (segments : List Text)
      → filter_segments (split_slash url.pathname) ≡ segments
      → detect_url to_lower_case url ≡ some loc
      → IsChannelPage to_lower_case url loc
  unfolding detect_url
  detect_url_sound url loc [] e h = absurd (some-ne-none (sym (rw (e, detect_url) at h)))
  detect_url_sound url loc (segment ∷ others) e h =
      let (host, name, shape, free, id) =
        detect_host-Sound (strip_www url.hostname) (to_lower_case segment) loc
          (rw (e, detect_url) at h) in
      record {
        host = (host_iff loc.platform url.hostname).0 host;
        segment = segment;
        first = (IsFirstSegment-iff url.pathname segment).0 (others, e);
        name = name;
        shape = (channel_name_re_iff loc.channel_name).0 (rw name shape);
        free = rw name free;
        id = rw name id ∙ ap (λ t. t ++ loc.channel_name) (id_prefix_lem loc.platform);
      }

  detect_url_complete :
      (url : Url) (loc : ChannelLocation)
      → IsChannelPage to_lower_case url loc
      → detect_url to_lower_case url ≡ some loc
  unfolding detect_url
  detect_url_complete url loc page =
      let (others, e) = (IsFirstSegment-iff url.pathname page.segment).1 page.first in
      let host = (host_iff loc.platform url.hostname).1 page.host in
      let shape = (channel_name_re_iff loc.channel_name).1 page.shape in
      let id = page.id ∙ ap (λ t. t ++ loc.channel_name) (sym (id_prefix_lem loc.platform)) in
      rw (e, detect_url, host, ← page.name)
        (detect_host_complete loc.platform loc.channel_name shape page.free
          ∙ ap some (located_lem loc id))

  -- A page is taken for a channel exactly when its address parses, its host is twitch.tv or kick.com or one of
  -- these behind "www.", and the first piece of its path between slashes that is not empty is, in lower case, a
  -- name of 1 to 64 characters of [a-z0-9_] that the platform does not reserve. The location holds that name,
  -- and the id is the platform, a colon and the name.
  pub detect_channel_iff :
      (parse_url : Text → Option Url) (href : Text) (loc : ChannelLocation)
      → (detect_channel to_lower_case parse_url href ≡ some loc)
        ↔ ((url : Url) × (parse_url href ≡ some url) × IsChannelPage to_lower_case url loc)
  unfolding detect_channel
  detect_channel_iff parse_url href loc = (
    λ h. elim (Option-cases (parse_url href)) [
      | inl broken ↦ absurd (some-ne-none (sym (rw (broken, detect_channel) at h)))
      | inr (url, parsed) ↦ (
        url,
        parsed,
        detect_url_sound url loc (filter_segments (split_slash url.pathname)) refl
            (rw (parsed, detect_channel) at h),
      )
    ],
    λ (url, parsed, page). rw (parsed, detect_channel) (detect_url_complete url loc page),
  )

-- Two locations with one id are the same: a relay channel belongs to one platform and one name.
located-injective :
    (p q : Platform) (s t : Text)
    → (located p s).channel_id ≡ (located q t).channel_id
    → (p ≡ q) × (s ≡ t)
unfolding located
located-injective twitch twitch s t h = (refl, ground arith)
located-injective twitch kick s t h = absurd (ground arith)
located-injective kick twitch s t h = absurd (ground arith)
located-injective kick kick s t h = (refl, ground arith)
