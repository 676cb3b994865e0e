-- ===== src/Content/Heard/Settings.antt =====
-- The settings of extension/src/store/prefs.ts that have a gain.
use streammix.Common.{
  ◌≡◌, refl, sym, ◌∙◌, Bool, true, false, List, [], ◌∷◌, Option, none, some, some-ne-none,
  Option-cases, inl, inr, All, if◌then◌else◌,
}
use streammix.Common.Assoc.{get}
use streammix.Common.Text.{Text, includes, text_eq}
use streammix.Audio.Graph.{half}
use streammix.Categories.{custom_category}
use streammix.Messages.TrackList.{TrackInfo}
use streammix.Store.{
  default_setting, ChannelSetting, Prefs, object_prototype, effective_setting, property,
  from_global, own_or, setting_or,
}
use streammix.Content.Events.{Event, track_list}
use streammix.Content.Heard.Callbacks.{HasGain}

-- Every preference of the page says a gain.
abbrev pub AreGains : Prefs → Type 0
AreGains prefs = (key : Text) (s : ChannelSetting) → get key prefs ≡ some s → HasGain s

-- Neither name is one of those that every object inherits a property of.
abbrev pub IsPlain : TrackInfo → Type 0
IsPlain t =
    (includes object_prototype t.slug ≡ false) × (includes object_prototype t.category ≡ false)

abbrev pub IsPlainEvent : Event → Type 0
IsPlainEvent (track_list incoming) = All IsPlain incoming
IsPlainEvent e = Unit {0}

property-HasGain :
    (prefs : Prefs) (key : Text) (s : ChannelSetting)
    → AreGains prefs
    → includes object_prototype key ≡ false
    → property prefs key ≡ some s
    → HasGain s
unfolding property
property-HasGain prefs key s gains plain e = elim (Option-cases (get key prefs)) [
  | inl unknown ↦
      let missing : property prefs key ≡ none = rw (property, unknown, plain) refl in
      absurd (some-ne-none (sym e ∙ missing))
  | inr (x, known) ↦
      let found : property prefs key ≡ some x = rw (property, known) refl in
      gains key s (known ∙ sym found ∙ e)
]

abbrev HaveGain : Option ChannelSetting → Type 0
HaveGain o = (s : ChannelSetting) → o ≡ some s → HasGain s

own_or-HaveGain : (a b : Option ChannelSetting) → HaveGain a → HaveGain b → HaveGain (own_or a b)
own_or-HaveGain none b ha hb = hb
own_or-HaveGain (some x) b ha hb = ha

unless-HaveGain :
    (b : Bool) (o : Option ChannelSetting) → HaveGain o → HaveGain (if b then none else o)
unless-HaveGain true o h s e = cc
unless-HaveGain false o h s e = h s e

setting_or-HasGain :
    (o : Option ChannelSetting) (d : ChannelSetting)
    → HaveGain o
    → HasGain d
    → HasGain (setting_or o d)
setting_or-HasGain none d h hd = hd
setting_or-HasGain (some s) d h hd = h s refl

effective_setting-HasGain :
    (t : TrackInfo) (streamer global : Prefs)
    → IsPlain t
    → AreGains streamer
    → AreGains global
    → HasGain (effective_setting t.slug t.category streamer global)
unfolding effective_setting
effective_setting-HasGain t streamer global (slug, category) gs gg =
    setting_or-HasGain (own_or (property streamer t.slug) (from_global t.category global))
      default_setting
      (own_or-HaveGain (property streamer t.slug) (from_global t.category global)
        (λ s e. property-HasGain streamer t.slug s gs slug e)
        (unless-HaveGain (text_eq t.category custom_category) (property global t.category)
          (λ s e. property-HasGain global t.category s gg category e)))
      (half, refl)

pub All-HasGain :
    (ts : List TrackInfo) (streamer global : Prefs)
    → All IsPlain ts
    → AreGains streamer
    → AreGains global
    → All (λ t. HasGain (effective_setting t.slug t.category streamer global)) ts
All-HasGain [] streamer global plain gs gg = tt
All-HasGain (t ∷ ts) streamer global (p, ps) gs gg =
    (effective_setting-HasGain t streamer global p gs gg, All-HasGain ts streamer global ps gs gg)
