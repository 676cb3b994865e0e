-- ===== src/Tools/Publisher/Limits.antt =====
-- Where tools/mock-publisher/src/main.ts stops.
use streammix.Common.{ℕ, ◌+◌, ◌^◌, ◌≡◌, refl, List, [], ◌∷◌, arith}
use streammix.Common.Number.{num}
use streammix.Errors
use streammix.Errors.{Result, ok, thrown, ◌>>=◌}
use streammix.Header.{encode_frame}
use streammix.Messages.Fingerprint.{encode_fingerprint}
use streammix.Common.Bytes.{be_bytes}
use streammix.Tools.Publisher.{
  Publisher, send, send_audio, send_fingerprints, count_up, Tick, audio, fingerprint, tick,
  tick_all, on_close,
}
use streammix.Tools.Publisher.Sending.{IsTick, HasSent}

-- Once 2 ^ 32 - 1 frames have been sent on each track, the next tick of either interval throws, since the
-- number would not fit into the header.
pub tick_exhausted :
    (k : ℕ) (t : Tick) (p : Publisher)
    → IsTick t
    → HasSent k p
    → k + 1 ≡ 2 ^ 32
    → tick t p
      ≡ thrown
          (record { message = Errors.seq_out_of_range (num (2 ^ 32)); code = Errors.bad_payload })
unfolding tick send_audio send_fingerprints send count_up encode_frame encode_fingerprint be_bytes
tick_exhausted k (audio now fill) p (b, long) at full = ground (arith, at.timer, at.mic, long 1)
tick_exhausted k (fingerprint now draw) p (b, wide) at full = ground (arith, at.fp_timer, at.mic)

-- After its connection has closed, the tool sends nothing more, whatever falls due.
pub tick_all-on_close :
    (ts : List Tick) (p : Publisher) → tick_all ts (on_close p) ≡ ok (on_close p)
unfolding tick_all tick on_close
tick_all-on_close [] p = refl
tick_all-on_close (audio now fill ∷ ts) p = tick_all-on_close ts p
tick_all-on_close (fingerprint now draw ∷ ts) p = tick_all-on_close ts p
