-- ===== src/Tools/Subscriber.antt =====
-- tools/mock-subscriber/src/main.ts: the handler of messages, with what it prints as a list of lines. The
-- spelling of a number in base 16 is the runtime's.
pub mod Arguments
pub mod Counts
use streammix.Common.{
  ℕ, ◌+◌, Bool, true, false, List, [], ◌∷◌, ◌++◌, map, Option, none, some, length, if◌then◌else◌,
}
use streammix.Common.Assoc.{get, set}
use streammix.Common.Number.{Number, num, num_eq}
use streammix.Common.Text.{Text, text}
use streammix.Constants.MessageType
use streammix.Errors.{Result, ok, thrown, Message}
use streammix.Header.{Frame, decode_frame}
use streammix.Json.{JsonText}
use streammix.Messages.ErrorMessage.{ErrorPayload, decode_error}
use streammix.Messages.TrackList.{TrackInfo, decode_track_list}

-- `counts`, the own properties of an object.
abbrev pub Counts : Type 0
Counts = List (Text × ℕ)

-- A line on the console.
pub data Line : Type 0 where
  decode_failed : Message → Line
  frame_line : Text → Number → Number → ℕ → Line
  track_line : List (Number × Text) → Line
  relay_error : Text → Text → Line

-- `MessageType[type]`, the names of the enum's members.
abbrev pub type_names : List (ℕ × Text)
type_names =
    (MessageType.hello, text "Hello")
    ∷ (MessageType.track_list, text "TrackList")
    ∷ (MessageType.audio_opus, text "AudioOpus")
    ∷ (MessageType.fingerprint, text "Fingerprint")
    ∷ (MessageType.track_meta, text "TrackMeta")
    ∷ (MessageType.stats, text "Stats")
    ∷ (MessageType.sub_tracks, text "SubTracks")
    ∷ (MessageType.error, text "Error")
    ∷ []

unfoldable pub name_in : List (ℕ × Text) → Text → Number → Text
name_in [] fallback type = fallback
name_in ((n, name) ∷ names) fallback type =
    if num_eq type (num n) then name else name_in names fallback type

abbrev pub count_of : Counts → Text → ℕ
count_of counts name = elim (get name counts) [ none ↦ 0 | some n ↦ n ]

abbrev pub listed : List TrackInfo → List (Number × Text)
listed [] = []
listed (t ∷ ts) = (t.id, t.slug) ∷ listed ts

-- `try { const x = decode(…); console.log(…); } catch { /* ignore */ }`
abbrev pub try_line {ℓ} : {A : Type ℓ} → Result A → (A → Line) → List Line
try_line (ok a) line = line a ∷ []
try_line (thrown e) line = []

module _ (json : JsonText) (hex : Number → Text) (summarize : Bool) where
  abbrev pub name_of : Frame → Text
  name_of frame = name_in type_names (text "0x" ++ hex frame.type) frame.type

  -- What is printed of a decoded frame, of the payload at last. A fingerprint is decoded and dropped.
  unfoldable pub lines_of : Frame → List Line
  lines_of frame =
      (if summarize
        then []
        else frame_line (name_of frame) frame.track frame.seq (length frame.payload) ∷ [])
      ++ (if num_eq frame.type (num MessageType.track_list)
          then try_line (decode_track_list json frame.payload) (λ ts. track_line (listed ts))
          else if num_eq frame.type (num MessageType.error)
          then try_line (decode_error json frame.payload) (λ err. relay_error err.code err.message)
          else [])

  abbrev pub on_decoded : Result Frame → Counts → Counts × List Line
  on_decoded (thrown e) counts = (counts, decode_failed e.message ∷ [])
  on_decoded (ok frame) counts =
      (set (name_of frame) (count_of counts (name_of frame) + 1) counts, lines_of frame)

  -- `ws.on("message")`
  unfoldable pub on_message : List ℕ → Counts → Counts × List Line
  on_message bytes counts = on_decoded (decode_frame bytes) counts

  unfoldable pub on_messages : List (List ℕ) → Counts → Counts × List Line
  on_messages [] counts = (counts, [])
  on_messages (bytes ∷ rest) counts =
      let (counts, lines) = on_message bytes counts in
      let (counts, more) = on_messages rest counts in (counts, lines ++ more)
