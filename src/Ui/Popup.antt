-- ===== src/Ui/Popup.antt =====
-- extension/src/popup/popup.ts: the field for the address of a relay, and what the browser stores of it.
use streammix.Common.{
  ℕ, ◌≡◌, refl, Bool, true, false, not, ◌&&◌, ◌||◌, List, [], ◌∷◌, none, some, leb, ◌==◌, drop,
  take, all, if◌then◌else◌,
}
use streammix.Common.Assoc.{get, set, get-set}
use streammix.Common.Text.{Text, text, text_eq}
use streammix.Json.{Json, string}

abbrev pub relay_key : Text
relay_key = text "settings.relayURL"

-- White space and line ends, which `trim` cuts off and `\s` matches.
unfoldable pub is_space : ℕ → Bool
is_space c =
    (leb 0x9 c && leb c 0xd)
    || c == 0x20
    || c == 0xa0
    || c == 0x1680
    || (leb 0x2000 c && leb c 0x200a)
    || c == 0x2028
    || c == 0x2029
    || c == 0x202f
    || c == 0x205f
    || c == 0x3000
    || c == 0xfeff

unfoldable pub trim_left : Text → Text
trim_left [] = []
trim_left (c ∷ cs) = let rest = trim_left cs in if is_space c then rest else c ∷ cs

-- Without the spaces at the end.
unfoldable pub trim_right : Text → Text
trim_right [] = []
trim_right (c ∷ cs) = elim (trim_right cs) [
  | [] ↦ if is_space c then [] else c ∷ []
  | d ∷ ds ↦ c ∷ d ∷ ds
]

-- `value.trim()`
unfoldable pub trim : Text → Text
trim value = trim_right (trim_left value)

abbrev pub is_empty : Text → Bool
is_empty [] = true
is_empty (c ∷ cs) = false

-- `/^wss:\/\/[^\s]+$/`
unfoldable pub is_relay_url : Text → Bool
is_relay_url v =
    text_eq (take 6 v) (text "wss://")
    && not (is_empty (drop 6 v))
    && all (λ c. not (is_space c)) (drop 6 v)

-- The field as the popup opens, from what is stored: only a string is shown.
unfoldable pub shown : List (Text × Json) → Text
shown items = elim (get relay_key items) [ some (string url) ↦ url | some other ↦ [] | none ↦ [] ]

-- The listener of "change".
unfoldable pub on_change : Text → List (Text × Json) → List (Text × Json)
on_change value items =
    let v = trim value in
    if is_empty v || is_relay_url v then set relay_key (string v) items else items

shown-store :
    (stored : Bool) (v : Text) (items : List (Text × Json))
    → shown (if stored then set relay_key (string v) items else items)
      ≡ (if stored then v else shown items)
unfolding shown
shown-store true v items = rw (shown, get-set relay_key relay_key (string v) items) refl
shown-store false v items = refl

-- The next popup shows what was typed, without the spaces around it, if that is empty or an address of the
-- form "wss://…" without spaces; else it shows what it showed before.
pub shown-on_change :
    (value : Text) (items : List (Text × Json))
    → shown (on_change value items)
      ≡ (if is_empty (trim value) || is_relay_url (trim value) then trim value else shown items)
unfolding on_change
shown-on_change value items =
    shown-store (is_empty (trim value) || is_relay_url (trim value)) (trim value) items
