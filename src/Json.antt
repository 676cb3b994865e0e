-- ===== src/Json.antt =====
-- JSON values as `JSON.parse` returns them, and how shared/ts/src/messages.ts looks into them.
-- The text form, `JSON.stringify` with `TextEncoder` and `JSON.parse` with the fatal `TextDecoder`, is
-- the runtime's: it enters as the parameter `JsonText`.
use streammix.Common.{ℕ, suc, ◌≡◌, Bool, false, List, Option, none, some, if◌then◌else◌}
use streammix.Common.Text.{Text, text_eq}
use streammix.Common.Number.{Number, num, num_eq}

mutual
  pub data Json : Type 0 where
    null : Json
    bool : Bool → Json
    number : Number → Json
    string : Text → Json
    array : Items → Json
    object : Fields → Json

  pub data Items : Type 0 where
    nil : Items
    cons : Json → Items → Items

  pub data Fields : Type 0 where
    end : Fields
    field : Text → Json → Fields → Fields

pub record JsonText : Type 0 where
  -- `encoder.encode(JSON.stringify(value))`
  pub stringify : Json → List ℕ
  -- `JSON.parse(decoder.decode(buf))`, `none` where one of the two throws.
  pub parse : List ℕ → Option Json

-- The value is one that its text gives back.
abbrev pub IsReadBack : JsonText → Json → Type 0
IsReadBack json value = json.parse (json.stringify value) ≡ some value

-- `obj[key]`, `none` for `undefined`.
abbrev pub prop : Text → Fields → Option Json
prop key end = none
prop key (field k v rest) = if text_eq k key then some v else prop key rest

-- The members of a value that passes `value && typeof value === "object"`. An array passes too: it has
-- none of the members that the decoders ask for.
abbrev pub members : Option Json → Option Fields
members (some (object fields)) = some fields
members (some (array items)) = some end
members _ = none

-- `value === n` and `value === s`
abbrev pub is_number : Option Json → ℕ → Bool
is_number (some (number x)) n = num_eq x (num n)
is_number _ n = false

abbrev pub is_text : Option Json → Text → Bool
is_text (some (string s)) t = text_eq s t
is_text _ t = false

abbrev pub count_items : Items → ℕ
count_items nil = 0
count_items (cons v vs) = suc (count_items vs)
