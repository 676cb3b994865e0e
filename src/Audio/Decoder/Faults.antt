-- ===== src/Audio/Decoder/Faults.antt =====
-- extension/src/audio/decoder.ts: the lane of a decoder that fails or is closed.
use streammix.Common.{ℕ, ◌≡◌, refl, ap, ◌∙◌, true, List, [], ◌∷◌, ◌++◌, map, Option, none, some}
use streammix.Common.Int.{ℤ}
use streammix.Audio.Decoder.{new_lane, decode_all}
use streammix.Audio.Decoder.Opus.{
  WebCodecs, OpusLane, IsOpen, IsClosed, create_opus_decoder, decode_packet, close_opus,
  on_decoder_error, create_opus_decoder-IsOpen, decode_packet-IsOpen, decode_packet-IsClosed,
  close_opus-IsClosed, close_opus_again,
}

-- What befalls a lane: a packet, a failure of the browser's decoder, the lane's `close()`.
pub data Input : Type 0 where
  packet : ℕ → Input
  fails : Input
  closes : Input

-- The packets in front of the first failure or `close()`, and those behind it.
abbrev pub before : List Input → List ℕ
before [] = []
before (packet seq ∷ is) = seq ∷ before is
before (fails ∷ is) = []
before (closes ∷ is) = []

abbrev pub packets : List Input → List ℕ
packets [] = []
packets (packet seq ∷ is) = seq ∷ packets is
packets (fails ∷ is) = packets is
packets (closes ∷ is) = packets is

abbrev pub behind : List Input → List ℕ
behind [] = []
behind (packet seq ∷ is) = behind is
behind (fails ∷ is) = packets is
behind (closes ∷ is) = packets is

abbrev pub refused : List ℕ → List (Option ℤ)
refused [] = []
refused (seq ∷ seqs) = none ∷ refused seqs

module _ (codecs : WebCodecs) where
  -- The result of each packet, in order.
  unfoldable pub run_lane : List Input → OpusLane codecs → List (Option ℤ)
  run_lane [] o = []
  run_lane (packet seq ∷ is) o =
      let (o, result) = decode_packet codecs seq o in result ∷ run_lane is o
  run_lane (fails ∷ is) o = run_lane is (on_decoder_error codecs o)
  run_lane (closes ∷ is) o = run_lane is (close_opus codecs o)

  on_decoder_error-IsClosed : (o : OpusLane codecs) → IsClosed codecs (on_decoder_error codecs o)
  unfolding on_decoder_error
  on_decoder_error-IsClosed o = codecs.state-fault o.decoder

  run_lane-IsClosed :
      (is : List Input) (o : OpusLane codecs)
      → IsClosed codecs o
      → run_lane is o ≡ refused (packets is)
  unfolding run_lane
  run_lane-IsClosed [] o gone = refl
  run_lane-IsClosed (packet seq ∷ is) o gone =
      let (still, threw) = decode_packet-IsClosed codecs seq o gone in
      rw (threw, run_lane-IsClosed is (decode_packet codecs seq o).0 still) refl
  run_lane-IsClosed (fails ∷ is) o gone =
      run_lane-IsClosed is (on_decoder_error codecs o) (on_decoder_error-IsClosed o)
  run_lane-IsClosed (closes ∷ is) o gone =
      rw (close_opus_again codecs o gone) (run_lane-IsClosed is o gone)

  run_lane-IsOpen :
      (is : List Input) (o : OpusLane codecs)
      → IsOpen codecs o
      → run_lane is o ≡ map some (decode_all o.lane (before is)) ++ refused (behind is)
  unfolding run_lane decode_all
  run_lane-IsOpen [] o there = refl
  run_lane-IsOpen (packet seq ∷ is) o there =
      let (still, moved, taken) = decode_packet-IsOpen codecs seq o there in
      rw (taken, run_lane-IsOpen is (decode_packet codecs seq o).0 still, moved) refl
  run_lane-IsOpen (fails ∷ is) o there =
      run_lane-IsClosed is (on_decoder_error codecs o) (on_decoder_error-IsClosed o)
  run_lane-IsOpen (closes ∷ is) o there =
      run_lane-IsClosed is (close_opus codecs o) (close_opus-IsClosed codecs o there)

  -- In a browser with an `AudioDecoder` a lane is made; whatever packets, failures of the decoder and calls
  -- of `close()` follow, the packets in front of the first failure or `close()` are taken with the timestamps
  -- of `decode`, and every packet behind it throws: a lane never recovers from a failure.
  pub run_lane-create_opus_decoder :
      (is : List Input)
      → (o : OpusLane codecs) × (create_opus_decoder codecs true ≡ some o)
        × (run_lane is o ≡ map some (decode_all new_lane (before is)) ++ refused (behind is))
  run_lane-create_opus_decoder is =
      let (o, made, fresh, there) = create_opus_decoder-IsOpen codecs in
      (
        o,
        made,
        run_lane-IsOpen is o there
            ∙ ap (λ lane. map some (decode_all lane (before is)) ++ refused (behind is)) fresh,
      )
