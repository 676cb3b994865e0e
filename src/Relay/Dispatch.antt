-- ===== src/Relay/Dispatch.antt =====
-- `handleMessage` of extension/src/relay/client.ts. The callbacks of `RelayEvents` are the value that
-- is returned: at most one of them is called for a message.
pub mod Delivery
pub mod Legal
use streammix.Common.{ℕ, Bool, true, false, List, Option, none, some, if◌then◌else◌}
use streammix.Common.Int.{ℤ}
use streammix.Common.Number.{Number, num, num_eq}
use streammix.Common.Text.{Text}
use streammix.Constants.MessageType
use streammix.Errors.{Result, ok, thrown}
use streammix.Header.{Frame, decode_frame}
use streammix.Json.{JsonText}
use streammix.Messages.ErrorMessage.{ErrorPayload, decode_error}
use streammix.Messages.Fingerprint.{FingerprintPayload, decode_fingerprint}
use streammix.Messages.TrackList.{TrackInfo, decode_track_list}
use streammix.Messages.TrackMeta.{TrackMetaPayload, decode_track_meta}

pub data RelayEvent : Type 0 where
  on_track_list : List TrackInfo → RelayEvent
  on_audio : Number → Frame → RelayEvent
  on_fingerprint : Number → ℤ → Number → RelayEvent
  on_track_meta : Number → TrackMetaPayload → RelayEvent
  on_error : Text → Text → RelayEvent

-- `try { const x = decode(…); callback(x); } catch { /* ignore */ }`
abbrev pub try_call {ℓ} : {A : Type ℓ} → Result A → (A → RelayEvent) → Option RelayEvent
try_call (ok a) callback = some (callback a)
try_call (thrown e) callback = none

-- The switch over `frame.type`.
unfoldable pub dispatch : JsonText → Frame → Option RelayEvent
dispatch json frame =
    if num_eq frame.type (num MessageType.track_list)
    then try_call (decode_track_list json frame.payload) on_track_list
    else if num_eq frame.type (num MessageType.audio_opus)
    then some (on_audio frame.track frame)
    else if num_eq frame.type (num MessageType.fingerprint)
    then try_call (decode_fingerprint frame.payload)
        (λ fp. on_fingerprint frame.track fp.hash fp.window_ms)
    else if num_eq frame.type (num MessageType.track_meta)
    then try_call (decode_track_meta json frame.payload) (on_track_meta frame.track)
    else if num_eq frame.type (num MessageType.error)
    then try_call (decode_error json frame.payload) (λ err. on_error err.code err.message)
    else none

-- A frame that `decodeFrame` refuses is dropped.
abbrev pub dispatch_decoded : JsonText → Result Frame → Option RelayEvent
dispatch_decoded json (ok frame) = dispatch json frame
dispatch_decoded json (thrown e) = none

unfoldable pub handle_message : JsonText → List ℕ → Option RelayEvent
handle_message json input = dispatch_decoded json (decode_frame input)
