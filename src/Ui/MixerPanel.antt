-- ===== src/Ui/MixerPanel.antt =====
-- extension/src/ui/Mixer.svelte: the rows that the panel shows of a mixer, and what its controls call.
-- What a number input gives, `Number(…)`, the quotient by 100 and the rounded percentage are the
-- runtime's.
pub mod Clicks
pub mod Controls
use streammix.Audio.Graph.{max_offset_ms}
use streammix.Common.{
  ℕ, Bool, true, false, not, List, [], ◌∷◌, map, Option, none, some, String, if◌then◌else◌,
}
use streammix.Common.Number.{Number}
use streammix.Common.Text.{Text, text, text_eq}
use streammix.Content.{Mixer, is_muted, gain_of}
use streammix.Content.Events.{
  Event, change, mute_toggle, solo_toggle, broadcast_change, offset_change,
}
use streammix.Messages.TrackList.{TrackInfo}
use streammix.Ui.CategoryDisplay.{category_icon, category_label}

-- A row of `{#each tracks as t (t.id)}`.
pub record Row : Type 0 where
  pub slug : Text
  pub title : String
  pub icon : Option Text
  pub label : Option Text
  pub value : Number
  pub muted : Bool

abbrev pub title_of : Bool → String
title_of muted = if muted then "Unmute" else "Mute (Shift+click to solo)"

-- `t.label || categoryLabel(t.category)`
abbrev pub label_or : Text → Option Text → Option Text
label_or [] other = other
label_or (c ∷ cs) other = some (c ∷ cs)

-- `percent x` is `Math.round(x * 100)`.
unfoldable pub row_of : (Number → Number) → Mixer → TrackInfo → Row
row_of percent m t = record {
  slug = t.slug;
  title = title_of (is_muted m.muted t.slug);
  icon = category_icon t.category;
  label = label_or t.label (category_label t.category);
  value = percent (gain_of m.gains t.slug);
  muted = is_muted m.muted t.slug;
}

unfoldable pub rows : (Number → Number) → Mixer → List Row
rows percent m = map (row_of percent m) m.tracks

-- A click on a row's icon.
unfoldable pub click_icon : Bool → Text → Event
click_icon shift_key slug = if shift_key then solo_toggle slug else mute_toggle slug

module _ (to_number : Text → Number) (hundredth : Number → Number) where
  unfoldable pub handle_slider_input : Text → Text → Event
  handle_slider_input slug value = change slug (hundredth (to_number value))

  unfoldable pub handle_broadcast_input : Text → Event
  handle_broadcast_input value = broadcast_change (hundredth (to_number value))

  unfoldable pub handle_offset_input : Text → Event
  handle_offset_input value = offset_change (to_number value)

-- The panel with `showSettings`, and what it shows beside its rows. `spell ms` is `(ms / 1000).toFixed(2)`.
pub record View : Type 0 where
  pub tracks : List Row
  pub broadcast : Number
  -- The range of the offset's slider, where it stands and the number beside it, if the settings are open.
  pub settings : Option (ℕ × Number × Text)

abbrev pub settings_of : (Number → Text) → Bool → Number → Option (ℕ × Number × Text)
settings_of spell show_settings offset =
    if show_settings then some (max_offset_ms, offset, spell offset) else none

unfoldable pub view : (Number → Number) → (Number → Text) → Bool → Mixer → View
view percent spell show_settings m = record {
  tracks = rows percent m;
  broadcast = percent m.broadcast_gain;
  settings = settings_of spell show_settings m.offset_ms;
}
