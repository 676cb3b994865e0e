-- ===== src/Store/Laws.antt =====
-- What extension/src/store/prefs.ts keeps and which setting it picks.
use streammix.Common.{
  ◌≡◌, ◌⊎◌, refl, subst, true, false, ◌&&◌, List, [], ◌∷◌, ◌++◌, none, some, arith, if◌then◌else◌,
  All, Bool-cases, inl, inr,
}
use streammix.Common.Assoc.{get, set, get-set}
use streammix.Common.Text.{Text, text_eq, text_eq→eq, text_eq_refl, includes}
use streammix.Categories.{custom_category, is_preset_category, preset_categories}
use streammix.Store.{
  ChannelSetting, Prefs, object_prototype, inherited_setting, property, storage_get, storage_set,
  load_global, load_streamer, save_streamer, save_global_category, effective_setting,
  default_setting, own_or, setting_or, streamer_key_prefix, global_key,
}

-- After the preferences of one channel are saved, they are what is loaded for that channel; those of
-- every other channel, and the global ones, are as before.
pub load-save_streamer :
    (items : List (Text × Prefs)) (saved asked : Text) (prefs : Prefs)
    → (load_streamer (save_streamer (some items) saved prefs) asked
        ≡ (if text_eq saved asked then prefs else load_streamer (some items) asked))
      × (load_global (save_streamer (some items) saved prefs) ≡ load_global (some items))
unfolding load_streamer save_streamer load_global storage_get storage_set
load-save_streamer items saved asked prefs = (
  ground (arith, get-set (streamer_key_prefix ++ saved) (streamer_key_prefix ++ asked) prefs items),
  ground (arith, get-set (streamer_key_prefix ++ saved) global_key prefs items),
)

-- Global preferences that name preset categories only.
abbrev pub IsPresetOnly : Prefs → Type 0
IsPresetOnly = All (λ entry. is_preset_category entry.0 ≡ true)

IsPresetOnly-set :
    (category : Text) (setting : ChannelSetting) (prefs : Prefs)
    → is_preset_category category ≡ true
    → IsPresetOnly prefs
    → IsPresetOnly (set category setting prefs)
unfolding set
IsPresetOnly-set category setting [] preset h = (preset, tt)
IsPresetOnly-set category setting ((k, s) ∷ prefs) preset (hk, h) =
    elim (Bool-cases (text_eq k category)) [
      | inl same ↦ rw same (hk, h)
      | inr other ↦ rw other (hk, IsPresetOnly-set category setting prefs preset h)
    ]

load_global-set :
    (items : List (Text × Prefs)) (value : Prefs)
    → load_global (storage_set (some items) global_key value) ≡ value
unfolding load_global storage_set storage_get
load_global-set items value = ground (arith, get-set global_key global_key value items)

-- Where the global preferences name preset categories only, saving one keeps it so: a category that is no
-- preset is not written, a preset one is what is loaded for it afterwards, and the other categories are
-- as before.
pub save_global_category_lem :
    (items : List (Text × Prefs)) (category : Text) (setting : ChannelSetting)
    → IsPresetOnly (load_global (some items))
    → IsPresetOnly (load_global (save_global_category (some items) category setting))
      × ((asked : Text)
          → get asked (load_global (save_global_category (some items) category setting)) ≡ (
              if is_preset_category category && text_eq category asked
              then some setting
              else get asked (load_global (some items))))
unfolding save_global_category
save_global_category_lem items category setting h =
    elim (Bool-cases (is_preset_category category)) [
      | inr custom ↦ rw (custom, save_global_category) (h, λ asked. refl)
      | inl preset ↦
          let all = load_global (some items) in
          rw (preset, save_global_category, load_global-set items (set category setting all))
            (
              IsPresetOnly-set category setting all preset h,
              λ asked. get-set category asked setting all,
            )
    ]

-- The own property of an object of preferences, for a key that no object inherits.
property_own :
    (prefs : Prefs) (key : Text)
    → includes object_prototype key ≡ false
    → property prefs key ≡ get key prefs
unfolding property
property_own prefs key h = ground arith

All-includes :
    (P : Text → Type 0) (ts : List Text) (c : Text) → All P ts → includes ts c ≡ true → P c
All-includes P [] c ps h = cc
All-includes P (t ∷ ts) c (p, ps) h = elim (Bool-cases (text_eq t c)) [
  | inl same ↦ subst P (text_eq→eq t c same) p
  | inr other ↦ All-includes P ts c ps (ground arith)
]

presets_not_inherited : All (λ t. includes object_prototype t ≡ false) preset_categories
presets_not_inherited = (refl, (refl, (refl, (refl, (refl, (refl, (refl, (refl, tt))))))))

preset_not_inherited :
    (category : Text)
    → is_preset_category category ≡ true
    → includes object_prototype category ≡ false
unfolding is_preset_category
preset_not_inherited category h =
    All-includes (λ t. includes object_prototype t ≡ false) preset_categories category
      presets_not_inherited h

preset_not_custom :
    (category : Text)
    → is_preset_category category ≡ true
    → text_eq category custom_category ≡ false
unfolding is_preset_category
preset_not_custom category h =
    All-includes (λ t. text_eq t custom_category ≡ false) preset_categories category
      (refl, (refl, (refl, (refl, (refl, (refl, (refl, (refl, tt)))))))) h

custom_not_preset : is_preset_category custom_category ≡ false
unfolding is_preset_category
custom_not_preset = refl

-- The setting of a track whose slug is no property that every object inherits, and whose category is a
-- preset or "custom": the one saved for the streamer, else, for a preset category, the one saved for the
-- category, else the default.
pub effective_setting_lem :
    (slug category : Text) (streamer global : Prefs)
    → includes object_prototype slug ≡ false
    → (category ≡ custom_category) ⊎ (is_preset_category category ≡ true)
    → effective_setting slug category streamer global
      ≡ setting_or
          (own_or
            (get slug streamer)
            (if is_preset_category category then get category global else none))
          default_setting
unfolding effective_setting
effective_setting_lem slug category streamer global plain known = elim known [
  | inl e ↦
      ground
        (arith, property_own streamer slug plain, custom_not_preset, text_eq_refl custom_category)
  | inr preset ↦ ground (
    arith,
    property_own streamer slug plain,
    property_own global category (preset_not_inherited category preset),
    preset_not_custom category preset,
  )
]

-- A track whose slug is a property that every object inherits, such as "constructor", and for which the
-- streamer's preferences hold nothing, gets the inherited value in place of a setting: one with neither
-- gain nor mute, whatever is saved for its category.
pub effective_setting_inherited :
    (slug category : Text) (streamer global : Prefs)
    → includes object_prototype slug ≡ true
    → get slug streamer ≡ none
    → effective_setting slug category streamer global ≡ inherited_setting
unfolding effective_setting property
effective_setting_inherited slug category streamer global found unsaved = ground arith
