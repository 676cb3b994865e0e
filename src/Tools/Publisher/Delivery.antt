-- ===== src/Tools/Publisher/Delivery.antt =====
-- What the viewer's side, extension/src/relay/client.ts, makes of what tools/mock-publisher/src/main.ts
-- sends.
use streammix.Common.{
  ℕ, ◌+◌, ◌^◌, ◌%◌, ◌≤◌, ◌<◌, ◌≡◌, refl, ap, ◌∙◌, List, [], ◌∷◌, ◌++◌, map, Option, some, length,
  arith, All,
}
use streammix.Common.Int.{pos}
use streammix.Common.Number.{num}
use streammix.Constants.MessageType
use streammix.Header.{frame_buffer, has}
use streammix.Header.RoundTrip.{frame_of}
use streammix.Json.{JsonText}
use streammix.Common.Bytes.{be_bytes}
use streammix.Messages.Fingerprint.{
  FingerprintPayload, encode_fingerprint, decode_fingerprint-encode_fingerprint,
}
use streammix.Relay.Dispatch.{RelayEvent, on_audio, on_fingerprint, dispatch, handle_message}
use streammix.Relay.Dispatch.Delivery.{handle_message-frame_buffer}
use streammix.Tools.Publisher.{Publisher, tracks, hash_of, Tick, audio, fingerprint}
use streammix.Tools.Publisher.Sending.{IsTick, frames_of, bytes_from}

-- What the client calls for each message, in the order in which they were sent.
abbrev pub received : JsonText → Publisher → List (Option RelayEvent)
received json p = map (handle_message json) p.sent

-- The calls of one tick, each track's frame with the number `seq`.
abbrev pub calls_of : Tick → ℕ → List (Option RelayEvent)
calls_of (audio now fill) seq =
    map
      (λ t. some (on_audio (num t.id) (frame_of MessageType.audio_opus t.id 0 seq now (fill t.id))))
      tracks
calls_of (fingerprint now draw) seq =
    map (λ t. some (on_fingerprint (num t.id) (pos (hash_of (draw t.id))) (num 1000))) tracks

abbrev pub calls_from : ℕ → List Tick → List (Option RelayEvent)
calls_from seq [] = []
calls_from seq (t ∷ ts) = calls_of t seq ++ calls_from (seq + 1) ts

map-append {i j} :
    {A : Type i} {B : Type j} (f : A → B) (xs ys : List A) → map f (xs ++ ys) ≡ map f xs ++ map f ys
map-append f [] ys = refl
map-append f (x ∷ xs) ys = ap (λ t. f x ∷ t) (map-append f xs ys)

module _ (json : JsonText) (now seq : ℕ) (b : now < 2 ^ 64) (a : seq < 2 ^ 32) where
  heard_audio :
      (track : ℕ) (payload : List ℕ)
      → track ≤ 8
      → length payload ≡ 64
      → handle_message json (frame_buffer (frame_of MessageType.audio_opus track 0 seq now payload))
        ≡ some (on_audio (num track) (frame_of MessageType.audio_opus track 0 seq now payload))
  heard_audio track payload slot long =
      handle_message-frame_buffer json track 0 seq now payload MessageType.audio_opus
        (unfold has in refl) slot (omega arith) a b (omega arith)
      ∙ (unfold dispatch in refl)

  heard_fingerprint :
      (track hash : ℕ)
      → track ≤ 8
      → hash < 2 ^ 64
      → handle_message json (
          frame_buffer (
            frame_of MessageType.fingerprint track 0 seq now
              (encode_fingerprint (record { hash = pos hash; window_ms = num 1000 }))))
        ≡ some (on_fingerprint (num track) (pos hash) (num 1000))
  heard_fingerprint track hash slot wide =
      let p : FingerprintPayload = record { hash = pos hash; window_ms = num 1000 } in
      let same : hash % 2 ^ 64 ≡ hash = omega arith in
      handle_message-frame_buffer json track 0 seq now (encode_fingerprint p)
        MessageType.fingerprint (unfold has in refl) slot (omega arith) a b
        (unfold encode_fingerprint be_bytes in omega arith)
      ∙ (unfold dispatch in rw (decode_fingerprint-encode_fingerprint p, same) refl)

heard_tick :
    (json : JsonText) (seq : ℕ) (t : Tick)
    → seq < 2 ^ 32
    → IsTick t
    → map (handle_message json) (map frame_buffer (frames_of t seq)) ≡ calls_of t seq
heard_tick json seq (audio now fill) a (b, long) =
    let heard =
      λ (id : ℕ) (slot : id ≤ 8). heard_audio json now seq b a id (fill id) slot (long id) in
    rw (heard 1 (omega arith), heard 2 (omega arith), heard 3 (omega arith)) refl
heard_tick json seq (fingerprint now draw) a (b, wide) =
    let heard = λ (id : ℕ) (slot : id ≤ 8).
      heard_fingerprint json now seq b a id (hash_of (draw id)) slot (wide id) in
    rw (heard 1 (omega arith), heard 2 (omega arith), heard 3 (omega arith)) refl

-- Whoever hears the bytes of the ticks gets the calls of the ticks.
pub heard_ticks :
    (json : JsonText) (seq : ℕ) (ts : List Tick)
    → seq + length ts ≤ 2 ^ 32
    → All IsTick ts
    → map (handle_message json) (bytes_from seq ts) ≡ calls_from seq ts
heard_ticks json seq [] a ok_ticks = refl
heard_ticks json seq (t ∷ ts) a (b, bs) =
    map-append (handle_message json) (map frame_buffer (frames_of t seq)) (bytes_from (seq + 1) ts)
    ∙ rw (heard_tick json seq t (omega arith) b, heard_ticks json (seq + 1) ts (omega arith) bs)
        refl
