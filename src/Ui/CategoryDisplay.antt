-- ===== src/Ui/CategoryDisplay.antt =====
-- extension/src/ui/categoryDisplay.ts. An icon is its UTF-16 code units.
use streammix.Common.{
  ◌≡◌, ◌⊎◌, inl, inr, refl, subst, sym, ap, ◌∙◌, true, List, [], ◌∷◌, Option, none, some, All,
  Bool-cases, arith, if◌then◌else◌,
}
use streammix.Common.Assoc.{get}
use streammix.Common.Text.{Text, text, text_eq, text_eq→eq, includes}
use streammix.Categories.{custom_category, preset_categories, is_preset_category}
use streammix.Store.{object_prototype}

-- `ICONS`
abbrev pub icons : List (Text × Text)
icons =
    (text "mic", 0xd83c ∷ 0xdfa4 ∷ [])
    ∷ (text "game", 0xd83c ∷ 0xdfae ∷ [])
    ∷ (text "music", 0xd83c ∷ 0xdfb5 ∷ [])
    ∷ (text "voicechat", 0xd83d ∷ 0xdcac ∷ [])
    ∷ (text "notifications", 0xd83d ∷ 0xdd14 ∷ [])
    ∷ (text "browser", 0xd83c ∷ 0xdf10 ∷ [])
    ∷ (text "alerts", 0xd83d ∷ 0xdce3 ∷ [])
    ∷ (text "tts", 0xd83d ∷ 0xdde3 ∷ [])
    ∷ []

-- `LABELS`
abbrev pub labels : List (Text × Text)
labels =
    (text "mic", text "Microphone")
    ∷ (text "game", text "Game")
    ∷ (text "music", text "Music")
    ∷ (text "voicechat", text "Voice Chat")
    ∷ (text "notifications", text "Notifications")
    ∷ (text "browser", text "Browser")
    ∷ (text "alerts", text "Stream Alerts")
    ∷ (text "tts", text "TTS / Donations")
    ∷ []

-- `names[c] ?? fallback`; `none` is a function or an object that every object inherits.
unfoldable pub name_or : Text → List (Text × Text) → Text → Option Text
name_or fallback names c = elim (get c names) [
  | some name ↦ some name
  | none ↦ if includes object_prototype c then none else some fallback
]

unfoldable pub category_icon : Text → Option Text
category_icon c = name_or (0xd83d ∷ 0xdd0a ∷ []) icons c

unfoldable pub category_label : Text → Option Text
category_label c = name_or (text "Channel") labels c

-- `Category`: a preset one or "custom".
abbrev pub IsCategory : Text → Type 0
IsCategory c = (c ≡ custom_category) ⊎ (is_preset_category c ≡ true)

-- The key under which a name stands.
abbrev key_of : List (Text × Text) → Option Text → Text
key_of [] name = custom_category
key_of ((key, n) ∷ names) none = custom_category
key_of ((key, n) ∷ names) (some name) = if text_eq n name then key else key_of names (some name)

All-includes {κ} :
    (P : Text → Type κ) (ts : List Text) (c : Text) → All P ts → includes ts c ≡ true → P c
All-includes P [] c h e = cc
All-includes P (t ∷ ts) c (first, rest) e = elim (Bool-cases (text_eq t c)) [
  | inl same ↦ rw (← text_eq→eq t c same) first
  | inr other ↦ All-includes P ts c rest (ground arith)
]

All-categories {κ} :
    (P : Text → Type κ) (c : Text)
    → P custom_category
    → All P preset_categories
    → IsCategory c
    → P c
unfolding is_preset_category
All-categories P c other presets (inl e) = subst P (sym e) other
All-categories P c other presets (inr h) = All-includes P preset_categories c presets h

key_of-category_icon : (c : Text) → IsCategory c → key_of icons (category_icon c) ≡ c
unfolding category_icon name_or get
key_of-category_icon c h =
    All-categories (λ c. key_of icons (category_icon c) ≡ c) c refl
      (refl, (refl, (refl, (refl, (refl, (refl, (refl, (refl, tt)))))))) h

key_of-category_label : (c : Text) → IsCategory c → key_of labels (category_label c) ≡ c
unfolding category_label name_or get
key_of-category_label c h =
    All-categories (λ c. key_of labels (category_label c) ≡ c) c refl
      (refl, (refl, (refl, (refl, (refl, (refl, (refl, (refl, tt)))))))) h

-- Two categories with the same icon, or the same label, are the same: every preset category has its own,
-- which no other has, and "custom" has the fallback.
pub category_icon-injective :
    (c d : Text)
    → IsCategory c
    → IsCategory d
    → (category_icon c ≡ category_icon d) ⊎ (category_label c ≡ category_label d)
    → c ≡ d
category_icon-injective c d hc hd (inl e) =
    sym (key_of-category_icon c hc) ∙ ap (key_of icons) e ∙ key_of-category_icon d hd
category_icon-injective c d hc hd (inr e) =
    sym (key_of-category_label c hc) ∙ ap (key_of labels) e ∙ key_of-category_label d hd
