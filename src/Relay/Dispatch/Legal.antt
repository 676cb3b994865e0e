-- ===== src/Relay/Dispatch/Legal.antt =====
-- Which bytes make extension/src/relay/client.ts call which callback, with which arguments.
use streammix.Common.{
  ℕ, ◌≤◌, ◌≡◌, ◌↔◌, refl, ap, sym, ◌∙◌, subst, true, false, List, [], some, length, drop,
  some-ne-none, arith, Bool-cases, inl, inr,
}
use streammix.Common.Number.{num, num_eq}
use streammix.Errors.{Result, ok, thrown}
use streammix.Header.{Frame, decode_frame, byte_at}
use streammix.Header.Accepted.{IsFrame, frame_at, decode_frame_iff}
use streammix.Json.{JsonText}
use streammix.Messages.TrackList.{decode_track_list}
use streammix.Messages.TrackList.WellFormed.{AreTracks, decode_track_list_sound}
use streammix.Messages.ErrorMessage.{IsError, decode_error, decode_error_sound}
use streammix.Messages.TrackMeta.{IsMeta, decode_track_meta, decode_track_meta_sound}
use streammix.Messages.Fingerprint.{decode_fingerprint}
use streammix.Constants.MessageType
use streammix.Relay.Dispatch.{
  RelayEvent, on_track_list, on_audio, on_fingerprint, on_track_meta, on_error, try_call, dispatch,
  dispatch_decoded, handle_message,
}

-- The bytes are a frame of the type, by its byte on the wire.
abbrev pub IsFrameOf : ℕ → List ℕ → Type 0
IsFrameOf type input = IsFrame input × (byte_at input 4 ≡ type)

-- The callback that the bytes call for. The track is any of 0 to 8, whatever the type.
abbrev pub IsCall : JsonText → List ℕ → RelayEvent → Type 0
IsCall json input (on_track_list ts) =
    IsFrameOf 0x02 input
    × (decode_track_list json (drop 21 input) ≡ ok ts)
    × AreTracks [] ts
    × (length ts ≤ 8)
IsCall json input (on_audio track frame) =
    IsFrameOf 0x03 input × (track ≡ num (byte_at input 5)) × (frame ≡ frame_at input)
IsCall json input (on_fingerprint track hash window) =
    IsFrameOf 0x04 input
    × (track ≡ num (byte_at input 5))
    × (decode_fingerprint (drop 21 input) ≡ ok (record { hash = hash; window_ms = window }))
IsCall json input (on_track_meta track p) =
    IsFrameOf 0x05 input
    × (track ≡ num (byte_at input 5))
    × (decode_track_meta json (drop 21 input) ≡ ok p)
    × IsMeta p
IsCall json input (on_error code message) =
    IsFrameOf 0xff input
    × (decode_error json (drop 21 input) ≡ ok (record { code = code; message = message }))
    × IsError (record { code = code; message = message })

try_call_sound {ℓ} :
    {A : Type ℓ} (r : Result A) (callback : A → RelayEvent) (event : RelayEvent)
    → try_call r callback ≡ some event
    → (a : A) × (r ≡ ok a) × (callback a ≡ event)
try_call_sound (ok a) callback event h = (a, refl, cc)
try_call_sound (thrown e) callback event h = absurd (some-ne-none (sym h))

some_call : {a b : RelayEvent} → some a ≡ some b → a ≡ b
some_call h = cc

module _ (json : JsonText) (input : List ℕ) where
  dispatch_sound :
      (event : RelayEvent)
      → IsFrame input
      → dispatch json (frame_at input) ≡ some event
      → IsCall json input event
  unfolding dispatch
  dispatch_sound event v h =
      let f = frame_at input in
      elim (Bool-cases (num_eq f.type (num MessageType.track_list))) [
        | inl list ↦
            let (ts, e, same) = try_call_sound _ _ event (rw (list, dispatch) at h) in
            let (tracks, few) = decode_track_list_sound json (drop 21 input) ts e in
            subst (IsCall json input) same ((v, ground arith), e, tracks, few)
        | inr n2 ↦ elim (Bool-cases (num_eq f.type (num MessageType.audio_opus))) [
          | inl audio ↦
              let same : on_audio f.track f ≡ event = some_call (rw (n2, audio) at h) in
              subst (IsCall json input) same ((v, ground arith), refl, refl)
          | inr n3 ↦ elim (Bool-cases (num_eq f.type (num MessageType.fingerprint))) [
            | inl print ↦
                let (fp, e, same) = try_call_sound _ _ event (rw (n2, n3, print) at h) in
                subst (IsCall json input) same ((v, ground arith), refl, e)
            | inr n4 ↦ elim (Bool-cases (num_eq f.type (num MessageType.track_meta))) [
              | inl meta ↦
                  let (p, e, same) = try_call_sound _ _ event (rw (n2, n3, n4, meta) at h) in
                  subst (IsCall json input) same
                    ((v, ground arith), refl, e, decode_track_meta_sound json (drop 21 input) p e)
              | inr n5 ↦ elim (Bool-cases (num_eq f.type (num MessageType.error))) [
                | inl error ↦
                    let (p, e, same) = try_call_sound _ _ event (rw (n2, n3, n4, n5, error) at h) in
                    subst (IsCall json input) same
                      ((v, ground arith), e, decode_error_sound json (drop 21 input) p e)
                | inr other ↦ absurd (some-ne-none (sym (rw (n2, n3, n4, n5, other) at h)))
              ]
            ]
          ]
        ]
      ]

  dispatch_complete :
      (event : RelayEvent)
      → IsCall json input event
      → IsFrame input × (dispatch json (frame_at input) ≡ some event)
  unfolding dispatch
  dispatch_complete (on_track_list ts) ((v, type), e, tracks, few) =
      (v, rw (type, dispatch, e) refl)
  dispatch_complete (on_audio track frame) ((v, type), t, f) =
      let audio : num_eq (num (byte_at input 4)) (num 3) ≡ true = rw type refl in
      let other : num_eq (num (byte_at input 4)) (num 2) ≡ false = rw type refl in
      (v, rw (other, audio, t, f) refl)
  dispatch_complete (on_fingerprint track hash window) ((v, type), t, e) =
      (v, rw (type, dispatch, t, e) refl)
  dispatch_complete (on_track_meta track p) ((v, type), t, e, good) =
      (v, rw (type, dispatch, t, e) refl)
  dispatch_complete (on_error code message) ((v, type), e, good) = (v, rw (type, dispatch, e) refl)

  handle_message_sound :
      (event : RelayEvent) (r : Result Frame)
      → decode_frame input ≡ r
      → dispatch_decoded json r ≡ some event
      → IsCall json input event
  handle_message_sound event (thrown e) decoded h = absurd (some-ne-none (sym h))
  handle_message_sound event (ok f) decoded h =
      let (v, same) = (decode_frame_iff input f).0 decoded in dispatch_sound event v (rw same at h)

  -- `handleMessage` calls a callback with some arguments exactly if the bytes are a frame (SMX1, a track of at
  -- most 8, the declared length, 4096 bytes of payload at most) of the callback's type, the decoder of that type
  -- takes the payload, and the arguments are what it returned and, for audio, fingerprints and metadata, the
  -- track of the frame; a track list, metadata or error then keeps to the limits of the protocol. The track is
  -- not compared with the type: audio on track 0, which the protocol keeps for control messages, is handed on
  -- under track 0.
  pub handle_message_iff :
      (event : RelayEvent) → (handle_message json input ≡ some event) ↔ IsCall json input event
  unfolding handle_message
  handle_message_iff event = (
    λ h. handle_message_sound event (decode_frame input) refl h,
    λ call.
        let (v, e) = dispatch_complete event call in
        ap (dispatch_decoded json) ((decode_frame_iff input (frame_at input)).1 (v, refl)) ∙ e,
  )
