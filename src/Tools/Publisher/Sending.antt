-- ===== src/Tools/Publisher/Sending.antt =====
-- The frames that tools/mock-publisher/src/main.ts sends for each tick, as bytes.
use streammix.Common.{
  ℕ, ◌+◌, ◌^◌, ◌≤◌, ◌<◌, ◌≡◌, refl, subst, ap, sym, append-nil, ◌∙◌, true, List, [], ◌∷◌, ◌++◌, map,
  append_assoc, if◌then◌else◌, length, arith, All,
}
use streammix.Common.Int.{pos}
use streammix.Common.Number.{num}
use native.Mathlib.Nat.{add-zero}
use streammix.Constants.MessageType
use streammix.Errors.{Result, ok, ◌>>=◌}
use streammix.Header.{Frame, frame_buffer}
use streammix.Header.RoundTrip.{frame_of, encode_frame-frame_of}
use streammix.Common.Bytes.{be_bytes}
use streammix.Messages.Fingerprint.{encode_fingerprint}
use streammix.Tools.Publisher.{
  Publisher, tracks, send, send_audio, count_up, send_fingerprints, hash_of, Tick, audio,
  fingerprint, tick, tick_all,
}

-- A tick whose time fits into 64 bits, and whose audio payloads have the 64 bytes of the source.
abbrev pub IsTick : Tick → Type 0
IsTick (audio now fill) = (now < 2 ^ 64) × ((id : ℕ) → length (fill id) ≡ 64)
IsTick (fingerprint now draw) = (now < 2 ^ 64) × ((id : ℕ) → hash_of (draw id) < 2 ^ 64)

abbrev pub sending : Frame → Publisher → Publisher
sending frame p = record p { sent = p.sent ++ (frame_buffer frame ∷ []) }

module _ (track seq now : ℕ) (payload : List ℕ) (slot : track ≤ 8) (a : seq < 2 ^ 32)
    (b : now < 2 ^ 64) (short : length payload ≤ 4096) where
  -- A frame that fits goes out, and the handler goes on.
  pub send-ok :
      (type : ℕ) (p : Publisher) (rest : Publisher → Result Publisher)
      → (send type track seq now payload p >>= rest)
        ≡ rest (sending (frame_of type track 0 seq now payload) p)
  unfolding send
  send-ok type p rest =
      rw (encode_frame-frame_of type track 0 seq now payload slot (omega arith) a b short) refl

-- The frame of each track that a tick sends, with the number `seq`.
abbrev pub frames_of : Tick → ℕ → List Frame
frames_of (audio now fill) seq =
    map (λ t. frame_of MessageType.audio_opus t.id 0 seq now (fill t.id)) tracks
frames_of (fingerprint now draw) seq =
    map
      (λ t.
        frame_of MessageType.fingerprint t.id 0 seq now
          (encode_fingerprint (record { hash = pos (hash_of (draw t.id)); window_ms = num 1000 })))
      tracks

abbrev pub bytes_from : ℕ → List Tick → List (List ℕ)
bytes_from seq [] = []
bytes_from seq (t ∷ ts) = map frame_buffer (frames_of t seq) ++ bytes_from (seq + 1) ts

-- The timers run, and `k` frames have been sent on each track.
pub record HasSent (k : ℕ) (p : Publisher) : Type 0 where
  pub timer : p.timer ≡ true
  pub fp_timer : p.fp_timer ≡ true
  pub mic : p.seq 1 ≡ k
  pub game : p.seq 2 ≡ k
  pub music : p.seq 3 ≡ k

append_three {i} :
    {A : Type i} (xs : List A) (x y z : A)
    → ((xs ++ (x ∷ [])) ++ (y ∷ [])) ++ (z ∷ []) ≡ xs ++ (x ∷ y ∷ z ∷ [])
append_three [] x y z = refl
append_three (w ∷ xs) x y z = ap (λ t. w ∷ t) (append_three xs x y z)

-- What a handler leaves behind that did not throw, after it sent `bytes`.
abbrev pub Sends : ℕ → Publisher → List (List ℕ) → Result Publisher → Type 0
Sends k p bytes result =
    (p' : Publisher) × (result ≡ ok p') × HasSent k p' × (p'.sent ≡ p.sent ++ bytes)

-- One round of either loop: each track's number goes up by one, and its frame goes out.
abbrev send_three : ℕ → ℕ → (ℕ → List ℕ) → Publisher → Result Publisher
send_three type now payload p = send type 1 (p.seq 1 + 1) now (payload 1) (count_up 1 p) >>= λ p.
    send type 2 (p.seq 2 + 1) now (payload 2) (count_up 2 p) >>= λ p.
    send type 3 (p.seq 3 + 1) now (payload 3) (count_up 3 p) >>= λ p. ok p

module _ (k now : ℕ) (a : k + 1 < 2 ^ 32) (b : now < 2 ^ 64) where
  send_three-Sends :
      (type : ℕ) (payload : ℕ → List ℕ) (p : Publisher)
      → ((id : ℕ) → length (payload id) ≤ 4096)
      → HasSent k p
      → Sends
          (k + 1)
          p
          (map (λ id. frame_buffer (frame_of type id 0 (k + 1) now (payload id))) (1 ∷ 2 ∷ 3 ∷ []))
          (send_three type now payload p)
  unfolding count_up
  send_three-Sends type payload p short at =
      let frame : ℕ → Frame = λ id. frame_of type id 0 (p.seq id + 1) now (payload id) in
      let p1 = sending (frame 1) (count_up 1 p) in
      let p2 = sending (frame 2) (count_up 2 p1) in
      let p3 = sending (frame 3) (count_up 3 p2) in
      (
        p3,
        send-ok 1 (p.seq 1 + 1) now (payload 1) (omega arith) (omega (arith, at.mic)) b (short 1)
              type (count_up 1 p) _
            ∙ send-ok 2 (p.seq 2 + 1) now (payload 2) (omega arith) (omega (arith, at.game)) b
                (short 2) type (count_up 2 p1) _
            ∙ send-ok 3 (p.seq 3 + 1) now (payload 3) (omega arith) (omega (arith, at.music)) b
                (short 3) type (count_up 3 p2) _,
        record {
          timer = at.timer;
          fp_timer = at.fp_timer;
          mic = ap (λ n. n + 1) at.mic;
          game = ap (λ n. n + 1) at.game;
          music = ap (λ n. n + 1) at.music;
        },
        append_three p.sent (frame_buffer (frame 1)) (frame_buffer (frame 2))
              (frame_buffer (frame 3))
            ∙ rw (at.mic, at.game, at.music) refl,
      )

pub tick-Sends :
    (k : ℕ) (t : Tick) (p : Publisher)
    → k + 1 < 2 ^ 32
    → IsTick t
    → HasSent k p
    → Sends (k + 1) p (map frame_buffer (frames_of t (k + 1))) (tick t p)
unfolding tick send_audio send_fingerprints
tick-Sends k (audio now fill) p a (b, long) at =
    subst
      (λ b.
        Sends (k + 1) p (map frame_buffer (frames_of (audio now fill) (k + 1)))
          (if b then send_audio now fill tracks p else ok p))
      (sym at.timer)
      (send_three-Sends k now a b MessageType.audio_opus fill p (λ id. omega (arith, long id)) at)
tick-Sends k (fingerprint now draw) p a (b, wide) at =
    subst
      (λ b.
        Sends (k + 1) p (map frame_buffer (frames_of (fingerprint now draw) (k + 1)))
          (if b then send_fingerprints now draw tracks p else ok p))
      (sym at.fp_timer)
      (send_three-Sends k now a b MessageType.fingerprint
        (λ id. encode_fingerprint (record { hash = pos (hash_of (draw id)); window_ms = num 1000 }))
        p (λ id. unfold encode_fingerprint be_bytes in omega arith) at)

pub tick_all-Sends :
    (k : ℕ) (ts : List Tick) (p : Publisher)
    → k + length ts < 2 ^ 32
    → All IsTick ts
    → HasSent k p
    → Sends (k + length ts) p (bytes_from (k + 1) ts) (tick_all ts p)
unfolding tick_all
tick_all-Sends k [] p a ok_ticks at = (p, refl, rw (add-zero k) at, sym (append-nil p.sent))
tick_all-Sends k (t ∷ ts) p a (b, bs) at =
    let (p1, first, at1, sent1) = tick-Sends k t p (omega arith) b at in
    let (p2, rest, at2, sent2) = tick_all-Sends (k + 1) ts p1 (omega arith) bs at1 in
    let shifted : (k + 1) + length ts ≡ k + length (t ∷ ts) = omega arith in
    (
      p2,
      rw first rest,
      rw (← shifted) at2,
      sent2
          ∙ rw sent1 (
              append_assoc p.sent (map frame_buffer (frames_of t (k + 1)))
                (bytes_from (k + 1 + 1) ts)),
    )
