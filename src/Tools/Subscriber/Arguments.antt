-- ===== src/Tools/Subscriber/Arguments.antt =====
-- `parseArgs` of tools/mock-subscriber/src/main.ts. `process.exit(2)` is `none`.
use streammix.Common.{
  ◌≡◌, refl, ◌∙◌, Bool, true, false, ◌&&◌, ◌||◌, List, [], ◌∷◌, Option, none, some, if◌then◌else◌,
  arith,
}
use streammix.Common.Text.{Text, text, text_eq}
use streammix.Store.{own_or}
use streammix.Tools.{own_or_assoc, own_or-none}

pub record Args : Type 0 where
  pub url : Text
  pub channel : Text
  pub summarize : Bool

-- `Partial<Args>`
pub record Given : Type 0 where
  pub url : Option Text
  pub channel : Option Text
  pub summarize : Bool

abbrev pub nothing_given : Given
nothing_given = record { url = none; channel = none; summarize = true }

-- The loop: `argv[++i]` is `undefined` behind the last word.
unfoldable pub assign : Text → Option Text → Given → Given
assign key val out =
    if text_eq key (text "--url") then record out { url = val } else record out { channel = val }

unfoldable pub takes_value : Text → Bool
takes_value key = text_eq key (text "--url") || text_eq key (text "--channel")

unfoldable pub quieten : Text → Given → Given
quieten key out = if text_eq key (text "--verbose") then record out { summarize = false } else out

unfoldable pub read_args : List Text → Given → Given
read_args [] out = out
read_args (key ∷ []) out = if takes_value key then assign key none out else quieten key out
read_args (key ∷ val ∷ rest) out = elim (takes_value key) [
  | true ↦ read_args rest (assign key (some val) out)
  | false ↦ read_args (val ∷ rest) (quieten key out)
]

unfoldable pub require_args : Option Text → Option Text → Bool → Option Args
require_args (some (u ∷ us)) (some (c ∷ cs)) summarize =
    some (record { url = u ∷ us; channel = c ∷ cs; summarize = summarize })
require_args _ _ _ = none

unfoldable pub parse_args : List Text → Option Args
parse_args argv =
    let out = read_args argv nothing_given in require_args out.url out.channel out.summarize

-- A command line: options with their values, the switch, and other words.
pub data Word : Type 0 where
  url channel : Text → Word
  verbose : Word
  stray : Text → Word

abbrev pub words_of : List Word → List Text
words_of [] = []
words_of (url v ∷ ws) = text "--url" ∷ v ∷ words_of ws
words_of (channel v ∷ ws) = text "--channel" ∷ v ∷ words_of ws
words_of (verbose ∷ ws) = text "--verbose" ∷ words_of ws
words_of (stray s ∷ ws) = s ∷ words_of ws

-- No stray word is spelled like an option.
abbrev pub AreStray : List Word → Type 0
AreStray [] = Unit {0}
AreStray (stray s ∷ ws) =
    (takes_value s ≡ false) × (text_eq s (text "--verbose") ≡ false) × AreStray ws
AreStray (w ∷ ws) = AreStray ws

abbrev pub last_url : List Word → Option Text
last_url [] = none
last_url (url v ∷ ws) = own_or (last_url ws) (some v)
last_url (w ∷ ws) = last_url ws

abbrev pub last_channel : List Word → Option Text
last_channel [] = none
last_channel (channel v ∷ ws) = own_or (last_channel ws) (some v)
last_channel (w ∷ ws) = last_channel ws

abbrev pub is_quiet : List Word → Bool
is_quiet [] = true
is_quiet (verbose ∷ ws) = false
is_quiet (w ∷ ws) = is_quiet ws

read_args_stray :
    (s : Text) (ws : List Text) (out : Given)
    → takes_value s ≡ false
    → read_args (s ∷ ws) out ≡ read_args ws (quieten s out)
unfolding read_args
read_args_stray s [] out h = rw (h, read_args) refl
read_args_stray s (w ∷ ws) out h = rw (read_args, h) refl

read_args-words_of :
    (ws : List Word) (out : Given)
    → AreStray ws
    → read_args (words_of ws) out ≡ record {
      url = own_or (last_url ws) out.url;
      channel = own_or (last_channel ws) out.channel;
      summarize = is_quiet ws && out.summarize;
    }
unfolding read_args takes_value assign quieten
read_args-words_of [] out h = refl
read_args-words_of (url v ∷ ws) out h =
    read_args-words_of ws (record out { url = some v }) h
    ∙ rw (own_or_assoc (last_url ws) (some v) out.url) refl
read_args-words_of (channel v ∷ ws) out h =
    read_args-words_of ws (record out { channel = some v }) h
    ∙ rw (own_or_assoc (last_channel ws) (some v) out.channel) refl
read_args-words_of (verbose ∷ ws) out h =
    read_args_stray (text "--verbose") (words_of ws) out refl
    ∙ read_args-words_of ws (record out { summarize = false }) h
    ∙ ground arith
read_args-words_of (stray s ∷ ws) out (new, still, h) =
    read_args_stray s (words_of ws) out new ∙ rw still (read_args-words_of ws out h)

-- Of a command line of options with values, of `--verbose` and of other words, in any order, the subscriber
-- tool takes the last value of each option, summarizes unless `--verbose` is there, and stops with its usage
-- unless both options are there and neither is empty.
pub parse_args-words_of :
    (ws : List Word)
    → AreStray ws
    → parse_args (words_of ws) ≡ require_args (last_url ws) (last_channel ws) (is_quiet ws)
unfolding parse_args
parse_args-words_of ws h =
    rw
      (
        read_args-words_of ws nothing_given h,
        own_or-none (last_url ws),
        own_or-none (last_channel ws),
      )
      (ground arith)
