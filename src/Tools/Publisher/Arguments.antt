-- ===== src/Tools/Publisher/Arguments.antt =====
-- `parseArgs` of tools/mock-publisher/src/main.ts. `process.exit(2)` is `none`.
use streammix.Common.{
  ◌≡◌, refl, ◌∙◌, Bool, true, false, ◌||◌, List, [], ◌∷◌, Option, none, some, if◌then◌else◌, arith,
}
use streammix.Common.Text.{Text, text, text_eq}
use streammix.Store.{own_or}
use streammix.Tools.{own_or_assoc, own_or-none}

pub record Args : Type 0 where
  pub url : Text
  pub channel : Text
  pub token : Text

-- `Partial<Args>`
pub record Given : Type 0 where
  pub url : Option Text
  pub channel : Option Text
  pub token : Option Text

abbrev pub nothing_given : Given
nothing_given = record { url = none; channel = none; token = none }

-- The three tests of the loop's body, which store what stands behind the key.
unfoldable pub assign : Text → Option Text → Given → Given
assign key val out =
    if text_eq key (text "--url")
    then record out { url = val }
    else if text_eq key (text "--channel")
    then record out { channel = val }
    else if text_eq key (text "--token")
    then record out { token = val }
    else out

-- Whether one of the tests held, so that `i++` skips the value.
unfoldable pub is_flag : Text → Bool
is_flag key =
    text_eq key (text "--url") || text_eq key (text "--channel") || text_eq key (text "--token")

-- The loop. Behind the last word stands `undefined`.
unfoldable pub read_args : List Text → Given → Given
read_args [] out = out
read_args (key ∷ []) out = assign key none out
read_args (key ∷ val ∷ rest) out = elim (is_flag key) [
  | true ↦ read_args rest (assign key (some val) out)
  | false ↦ read_args (val ∷ rest) out
]

-- Each of the three must be there, and not be empty.
unfoldable pub require_args : Option Text → Option Text → Option Text → Option Args
require_args (some (u ∷ us)) (some (c ∷ cs)) (some (t ∷ ts)) =
    some (record { url = u ∷ us; channel = c ∷ cs; token = t ∷ ts })
require_args _ _ _ = none

unfoldable pub parse_args : List Text → Option Args
parse_args argv =
    let out = read_args argv nothing_given in require_args out.url out.channel out.token

-- A command line: options with their values, and other words.
pub data Word : Type 0 where
  url channel token : Text → Word
  stray : Text → Word

abbrev pub words : List Word → List Text
words [] = []
words (url v ∷ ws) = text "--url" ∷ v ∷ words ws
words (channel v ∷ ws) = text "--channel" ∷ v ∷ words ws
words (token v ∷ ws) = text "--token" ∷ v ∷ words ws
words (stray s ∷ ws) = s ∷ words ws

-- No stray word is spelled like an option.
abbrev pub AreStray : List Word → Type 0
AreStray [] = Unit {0}
AreStray (stray s ∷ ws) = (is_flag s ≡ false) × AreStray ws
AreStray (w ∷ ws) = AreStray ws

-- The value of the last option of each kind.
abbrev pub last_url : List Word → Option Text
last_url [] = none
last_url (url v ∷ ws) = own_or (last_url ws) (some v)
last_url (w ∷ ws) = last_url ws

abbrev pub last_channel : List Word → Option Text
last_channel [] = none
last_channel (channel v ∷ ws) = own_or (last_channel ws) (some v)
last_channel (w ∷ ws) = last_channel ws

abbrev pub last_token : List Word → Option Text
last_token [] = none
last_token (token v ∷ ws) = own_or (last_token ws) (some v)
last_token (w ∷ ws) = last_token ws

read_args_stray :
    (s : Text) (ws : List Text) (out : Given)
    → is_flag s ≡ false
    → read_args (s ∷ ws) out ≡ read_args ws out
unfolding read_args
read_args_stray s [] out h = unfold is_flag assign in ground arith
read_args_stray s (w ∷ ws) out h = rw (read_args, h) refl

-- What the loop adds to `out`.
read_args-words :
    (ws : List Word) (out : Given)
    → AreStray ws
    → read_args (words ws) out ≡ record {
      url = own_or (last_url ws) out.url;
      channel = own_or (last_channel ws) out.channel;
      token = own_or (last_token ws) out.token;
    }
unfolding read_args is_flag assign
read_args-words [] out h = refl
read_args-words (url v ∷ ws) out h =
    read_args-words ws (record out { url = some v }) h
    ∙ rw (own_or_assoc (last_url ws) (some v) out.url) refl
read_args-words (channel v ∷ ws) out h =
    read_args-words ws (record out { channel = some v }) h
    ∙ rw (own_or_assoc (last_channel ws) (some v) out.channel) refl
read_args-words (token v ∷ ws) out h =
    read_args-words ws (record out { token = some v }) h
    ∙ rw (own_or_assoc (last_token ws) (some v) out.token) refl
read_args-words (stray s ∷ ws) out (new, h) =
    read_args_stray s (words ws) out new ∙ read_args-words ws out h

-- Of a command line of options with values and of other words, in any order, the publisher tool takes the
-- last value of each option, even one that is spelled like an option, and stops with its usage unless all
-- three are there and none is empty.
pub parse_args-words :
    (ws : List Word)
    → AreStray ws
    → parse_args (words ws) ≡ require_args (last_url ws) (last_channel ws) (last_token ws)
unfolding parse_args
parse_args-words ws h =
    rw
      (
        read_args-words ws nothing_given h,
        own_or-none (last_url ws),
        own_or-none (last_channel ws),
        own_or-none (last_token ws),
      )
      refl
