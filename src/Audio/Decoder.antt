-- ===== src/Audio/Decoder.antt =====
-- extension/src/audio/decoder.ts: the timestamp of each packet, and the fallback that takes
-- interleaved samples apart. The WebCodecs decoder itself is the browser's. Sequence numbers are the
-- uint32 of the wire, so the products below 2 ^ 53 are exact.
pub mod Output
pub mod Opus
pub mod Faults
use streammix.Common.{
  ℕ, zero, suc, ◌+◌, ◌-◌, ◌*◌, ◌≤◌, ◌<◌, ◌≡◌, refl, ap, ◌∙◌, Bool, false, List, [], ◌∷◌, Option,
  none, some, ltb, if◌then◌else◌, arith, length, get_elem?,
}
use streammix.Common.Int.{ℤ, pos, negsuc, sub_ℕ}

abbrev pub frame_duration_us : ℕ
frame_duration_us = 20000

abbrev pub channels : ℕ
channels = 2

-- The variables that `createOpusDecoder` closes over.
pub record Lane : Type 0 where
  pub base_seq : Option ℕ
  pub last_seq : Option ℕ

abbrev pub new_lane : Lane
new_lane = record { base_seq = none; last_seq = none }

-- `if (baseSeq === null) baseSeq = seq;`
abbrev pub base_or : Option ℕ → ℕ → ℕ
base_or none seq = seq
base_or (some b) seq = b

-- `lastSeq !== null && seq < lastSeq`
abbrev pub is_before : ℕ → Option ℕ → Bool
is_before seq none = false
is_before seq (some last) = ltb seq last

-- `rel * FRAME_DURATION_US` for `rel = seq - base`
abbrev pub timestamp_of : ℕ → ℕ → ℤ
timestamp_of seq base = sub_ℕ (seq * frame_duration_us) (base * frame_duration_us)

-- `decode(packet, seq)`: the new state, and the timestamp of the chunk that is decoded.
unfoldable pub decode : Lane → ℕ → Lane × ℤ
decode lane seq =
    let base = base_or lane.base_seq seq in
    let timestamp = timestamp_of seq base in
    (
      record {
        base_seq = some (if is_before seq lane.last_seq then seq else base);
        last_seq = some seq;
      },
      timestamp,
    )

-- The timestamps of a run of packets.
unfoldable pub decode_all : Lane → List ℕ → List ℤ
decode_all lane [] = []
decode_all lane (seq ∷ seqs) =
    let (lane', timestamp) = decode lane seq in timestamp ∷ decode_all lane' seqs

-- Sequence numbers that never fall, from `last` on.
abbrev pub IsRising : ℕ → List ℕ → Type 0
IsRising last [] = Unit {0}
IsRising last (seq ∷ seqs) = (last ≤ seq) × IsRising seq seqs

abbrev pub elapsed : ℕ → List ℕ → List ℤ
elapsed base [] = []
elapsed base (seq ∷ seqs) = pos ((seq - base) * frame_duration_us) ∷ elapsed base seqs

decode_all_from :
    (base last : ℕ) (seqs : List ℕ)
    → base ≤ last
    → IsRising last seqs
    → decode_all (record { base_seq = some base; last_seq = some last }) seqs ≡ elapsed base seqs
unfolding decode_all decode
decode_all_from base last [] h r = refl
decode_all_from base last (seq ∷ seqs) h (up, r) =
    ground (arith, decode_all_from base seq seqs (omega arith) r)

-- Packets whose sequence numbers never fall get the timestamps 20 ms times their distance from the
-- first one: gaps leave the timeline in place.
pub decode_all_rising :
    (first : ℕ) (seqs : List ℕ)
    → IsRising first seqs
    → decode_all new_lane (first ∷ seqs) ≡ elapsed first (first ∷ seqs)
unfolding decode_all decode
decode_all_rising first seqs r = ground (arith, decode_all_from first first seqs (omega arith) r)

-- A packet whose number is below the base, where the base is not above the last number (the publisher
-- reconnected, and its numbers began again), is given a timestamp before zero, by the old base; only the
-- packets after it count from the new one, so the next packet `seq + d` gets 20 ms times `d`.
pub decode_restart :
    (base last seq d : ℕ)
    → base ≤ last
    → seq < base
    → decode_all (record { base_seq = some base; last_seq = some last }) (seq ∷ (seq + d) ∷ [])
      ≡ negsuc ((base - seq) * frame_duration_us - 1) ∷ pos (d * frame_duration_us) ∷ []
unfolding decode_all decode
decode_restart base last seq d h below = ground arith

-- The fallback: `chBuf[i] = interleaved[i * CHANNELS + ch]` for every frame.
module _ {ℓ} {A : Type ℓ} where
  abbrev pub sample_at : List A → A → ℕ → A
  sample_at xs silence i = elim (get_elem? xs i) [ some x ↦ x | none ↦ silence ]

  -- `frames` rounds, from frame `i` on.
  unfoldable pub plane : List A → A → ℕ → ℕ → ℕ → List A
  plane interleaved silence ch zero i = []
  plane interleaved silence ch (suc frames) i =
      sample_at interleaved silence (i * channels + ch)
      ∷ plane interleaved silence ch frames (i + 1)

  -- Two planes sample by sample.
  abbrev pub interleave : List (A × A) → List A
  interleave [] = []
  interleave ((l, r) ∷ rest) = l ∷ r ∷ interleave rest

  -- The samples of one plane.
  abbrev pub lefts : List (A × A) → List A
  lefts [] = []
  lefts ((l, r) ∷ rest) = l ∷ lefts rest

  abbrev pub rights : List (A × A) → List A
  rights [] = []
  rights ((l, r) ∷ rest) = r ∷ rights rest

  plane_step :
      (x y : A) (xs : List A) (silence : A) (ch frames i : ℕ)
      → plane (x ∷ y ∷ xs) silence ch frames (i + 1) ≡ plane xs silence ch frames i
  unfolding plane
  plane_step x y xs silence ch zero i = refl
  plane_step x y xs silence ch (suc frames) i =
      let shifted : (i + 1) * channels + ch ≡ suc (suc (i * channels + ch)) = omega arith in
      rw (shifted, plane_step x y xs silence ch frames (i + 1)) refl

  -- The fallback takes an interleaved buffer apart into its two planes.
  pub plane-interleave :
      (samples : List (A × A)) (silence : A)
      → (plane (interleave samples) silence 0 (length samples) 0 ≡ lefts samples)
        × (plane (interleave samples) silence 1 (length samples) 0 ≡ rights samples)
  unfolding plane
  plane-interleave [] silence = (refl, refl)
  plane-interleave ((l, r) ∷ rest) silence =
      let (left, right) = plane-interleave rest silence in
      (
        ap (λ t. l ∷ t) (plane_step l r (interleave rest) silence 0 (length rest) 0 ∙ left),
        ap (λ t. r ∷ t) (plane_step l r (interleave rest) silence 1 (length rest) 0 ∙ right),
      )
