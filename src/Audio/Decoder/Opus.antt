-- ===== src/Audio/Decoder/Opus.antt =====
-- extension/src/audio/decoder.ts: `createOpusDecoder` over the `AudioDecoder` of WebCodecs, which is the
-- browser's.
use streammix.Common.{
  ℕ, ◌≡◌, refl, sym, subst, ap, ◌∙◌, Bool, true, false, some-eq, Option, none, some, if◌then◌else◌,
  Option-cases, inl, inr,
}
use streammix.Common.Int.{ℤ}
use streammix.Audio.Decoder.{Lane, new_lane, decode}

-- The attribute `state` of an `AudioDecoder`.
pub data CodecState : Type 0 where
  unconfigured configured closed : CodecState

-- An `AudioDecoder` as WebCodecs describes it; `none` is a call that throws, and `fault` is what becomes of
-- the decoder before its `error` callback is called. A decoder that is configured takes every chunk, and a
-- closed one throws whatever is asked of it.
pub record WebCodecs : Type 1 where
  pub Decoder : Type 0
  pub new_decoder : Decoder
  pub state : Decoder → CodecState
  pub configure : Decoder → Option Decoder
  pub decode_chunk : ℤ → Decoder → Option Decoder
  pub close_decoder : Decoder → Option Decoder
  pub fault : Decoder → Decoder
  pub configure-new_decoder :
      (d : Decoder) × (configure new_decoder ≡ some d) × (state d ≡ configured)
  pub decode_chunk_configured :
      (t : ℤ) (d : Decoder)
      → state d ≡ configured
      → (d' : Decoder) × (decode_chunk t d ≡ some d') × (state d' ≡ configured)
  pub decode_chunk_closed : (t : ℤ) (d : Decoder) → state d ≡ closed → decode_chunk t d ≡ none
  pub close_decoder_configured :
      (d : Decoder)
      → state d ≡ configured
      → (d' : Decoder) × (close_decoder d ≡ some d') × (state d' ≡ closed)
  pub close_decoder_closed : (d : Decoder) → state d ≡ closed → close_decoder d ≡ none
  pub state-fault : (d : Decoder) → state (fault d) ≡ closed

module _ (codecs : WebCodecs) where
  open codecs use {
    Decoder, new_decoder, state, configure, decode_chunk, close_decoder, fault,
    configure-new_decoder, decode_chunk_configured, decode_chunk_closed, close_decoder_configured,
    close_decoder_closed, state-fault,
  }

  -- What `createOpusDecoder` closes over, with its `decoder`.
  pub record OpusLane : Type 0 where
    pub lane : Lane
    pub decoder : Decoder

  abbrev pub opus_of : Option Decoder → Option OpusLane
  opus_of none = none
  opus_of (some d) = some (record { lane = new_lane; decoder = d })

  -- `createOpusDecoder`: `none` is a throw, where the browser has no `AudioDecoder`.
  unfoldable pub create_opus_decoder : Bool → Option OpusLane
  create_opus_decoder has_audio_decoder =
      if has_audio_decoder then opus_of (configure new_decoder) else none

  abbrev pub hand_over : OpusLane → Lane × ℤ → OpusLane × Option ℤ
  hand_over o (lane, timestamp) = elim (decode_chunk timestamp o.decoder) [
    | none ↦ (record o { lane = lane }, none)
    | some d ↦ (record { lane = lane; decoder = d }, some timestamp)
  ]

  -- `decode(packet, seq)`: the new state, and the timestamp of the chunk that the decoder takes, or `none`
  -- where its `decode` throws.
  unfoldable pub decode_packet : ℕ → OpusLane → OpusLane × Option ℤ
  decode_packet seq o = hand_over o (decode o.lane seq)

  -- `close()`
  unfoldable pub close_opus : OpusLane → OpusLane
  close_opus o = elim (close_decoder o.decoder) [ none ↦ o | some d ↦ record o { decoder = d } ]

  -- The decoder of the browser fails on its work; the `error` callback only prints.
  unfoldable pub on_decoder_error : OpusLane → OpusLane
  on_decoder_error o = record o { decoder = fault o.decoder }

  abbrev pub IsOpen : OpusLane → Type 0
  IsOpen o = state o.decoder ≡ configured

  abbrev pub IsClosed : OpusLane → Type 0
  IsClosed o = state o.decoder ≡ closed

  pub create_opus_decoder-IsOpen :
      (o : OpusLane) × (create_opus_decoder true ≡ some o) × (o.lane ≡ new_lane) × IsOpen o
  unfolding create_opus_decoder
  create_opus_decoder-IsOpen =
      let (d, made, there) = configure-new_decoder in
      (record { lane = new_lane; decoder = d }, ap opus_of made, refl, there)

  pub create_opus_decoder-eq_some :
      (has_audio_decoder : Bool) (o : OpusLane)
      → create_opus_decoder has_audio_decoder ≡ some o
      → IsOpen o
  unfolding create_opus_decoder
  create_opus_decoder-eq_some true o made =
      let (d, configured_as, there) = configure-new_decoder in
      let one : record { lane = new_lane; decoder = d } ≡ o =
        some-eq (sym (ap opus_of configured_as) ∙ made) in
      subst IsOpen one there
  create_opus_decoder-eq_some false o made = cc

  pub decode_packet-IsOpen :
      (seq : ℕ) (o : OpusLane)
      → IsOpen o
      → IsOpen (decode_packet seq o).0
        × ((decode_packet seq o).0.lane ≡ (decode o.lane seq).0)
        × ((decode_packet seq o).1 ≡ some (decode o.lane seq).1)
  unfolding decode_packet
  decode_packet-IsOpen seq o there =
      let (d, taken, still) = decode_chunk_configured (decode o.lane seq).1 o.decoder there in
      rw (hand_over, taken) (still, refl, refl)

  -- The numbers move on also where the decoder throws.
  pub lane-decode_packet :
      (seq : ℕ) (o : OpusLane) → (decode_packet seq o).0.lane ≡ (decode o.lane seq).0
  unfolding decode_packet
  lane-decode_packet seq o = elim (Option-cases (decode_chunk (decode o.lane seq).1 o.decoder)) [
    | inl threw ↦ rw (threw, hand_over) refl
    | inr (d, taken) ↦ rw (taken, hand_over) refl
  ]

  pub decode_packet-IsClosed :
      (seq : ℕ) (o : OpusLane)
      → IsClosed o
      → IsClosed (decode_packet seq o).0 × ((decode_packet seq o).1 ≡ none)
  unfolding decode_packet
  decode_packet-IsClosed seq o gone =
      rw (hand_over, decode_chunk_closed (decode o.lane seq).1 o.decoder gone) (gone, refl)

  pub close_opus-IsClosed : (o : OpusLane) → IsOpen o → IsClosed (close_opus o)
  unfolding close_opus
  close_opus-IsClosed o there =
      let (d, done, gone) = close_decoder_configured o.decoder there in rw (close_opus, done) gone

  pub close_opus_again : (o : OpusLane) → IsClosed o → close_opus o ≡ o
  unfolding close_opus
  close_opus_again o gone = rw (close_opus, close_decoder_closed o.decoder gone) refl
