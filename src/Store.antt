-- ===== src/Store.antt =====
-- extension/src/store/prefs.ts: preferences for all streamers and for one. `chrome.storage.local` is the
-- browser's: here it keeps what was set under each key, and `none` stands for a page without it.
pub mod Laws
use streammix.Common.{
  ℕ, Bool, true, false, not, ◌||◌, List, [], ◌∷◌, ◌++◌, Option, none, some, if◌then◌else◌,
}
use streammix.Common.Assoc.{get, set}
use streammix.Common.Number.{Number, num}
use streammix.Common.Text.{Text, text, text_eq, includes}
use streammix.Categories.{custom_category, is_preset_category}
use streammix.Audio.Graph.{half}

-- `none` is a property that is `undefined`.
pub record ChannelSetting : Type 0 where
  pub gain : Option Number
  pub muted : Option Bool
  pub permanently_off : Option Bool

abbrev pub default_setting : ChannelSetting
default_setting = record { gain = some half; muted = some false; permanently_off = some false }

-- `StreamerPrefs` and `GlobalPrefs`: the own properties of an object.
abbrev pub Prefs : Type 0
Prefs = List (Text × ChannelSetting)

-- The properties that every object literal inherits from `Object.prototype`.
abbrev pub object_prototype : List Text
object_prototype =
    text "constructor"
    ∷ text "hasOwnProperty"
    ∷ text "isPrototypeOf"
    ∷ text "propertyIsEnumerable"
    ∷ text "toLocaleString"
    ∷ text "toString"
    ∷ text "valueOf"
    ∷ text "__proto__"
    ∷ text "__defineGetter__"
    ∷ text "__defineSetter__"
    ∷ text "__lookupGetter__"
    ∷ text "__lookupSetter__"
    ∷ []

-- An inherited function or object, read as a setting: it has none of the three properties.
abbrev pub inherited_setting : ChannelSetting
inherited_setting = record { gain = none; muted = none; permanently_off = none }

abbrev pub inherited : Text → Option ChannelSetting
inherited key = if includes object_prototype key then some inherited_setting else none

abbrev pub own_or {ℓ} : {A : Type ℓ} → Option A → Option A → Option A
own_or (some v) rest = some v
own_or none rest = rest

-- `prefs[key]`, `none` for `undefined`.
unfoldable pub property : Prefs → Text → Option ChannelSetting
property prefs key = own_or (get key prefs) (inherited key)

abbrev pub Storage : Type 0
Storage = Option (List (Text × Prefs))

abbrev pub global_key : Text
global_key = text "prefs.global"

abbrev pub streamer_key_prefix : Text
streamer_key_prefix = text "prefs.streamer."

abbrev pub or_fallback : Option Prefs → Prefs → Prefs
or_fallback (some prefs) fallback = prefs
or_fallback none fallback = fallback

-- The private `get` and `set` of the file.
unfoldable pub storage_get : Storage → Text → Prefs → Prefs
storage_get none key fallback = fallback
storage_get (some items) key fallback = or_fallback (get key items) fallback

unfoldable pub storage_set : Storage → Text → Prefs → Storage
storage_set none key value = none
storage_set (some items) key value = some (set key value items)

unfoldable pub load_global : Storage → Prefs
load_global storage = storage_get storage global_key []

unfoldable pub load_streamer : Storage → Text → Prefs
load_streamer storage channel_id = storage_get storage (streamer_key_prefix ++ channel_id) []

unfoldable pub save_streamer : Storage → Text → Prefs → Storage
save_streamer storage channel_id prefs =
    storage_set storage (streamer_key_prefix ++ channel_id) prefs

-- One call with nothing else written between its load and its store.
unfoldable pub save_global_category : Storage → Text → ChannelSetting → Storage
save_global_category storage category setting =
    if not (is_preset_category category)
    then storage
    else storage_set storage global_key (set category setting (load_global storage))

-- `if (category !== "custom") { const fromGlobal = global[category]; … }`
abbrev pub from_global : Text → Prefs → Option ChannelSetting
from_global category global =
    if text_eq category custom_category then none else property global category

abbrev pub setting_or : Option ChannelSetting → ChannelSetting → ChannelSetting
setting_or (some s) d = s
setting_or none d = d

unfoldable pub effective_setting : Text → Text → Prefs → Prefs → ChannelSetting
effective_setting track_slug category streamer global =
    setting_or (own_or (property streamer track_slug) (from_global category global)) default_setting
