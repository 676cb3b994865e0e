-- ===== src/Audio/Decoder/Output.antt =====
-- The `output` callback of extension/src/audio/decoder.ts: what the browser's decoder gives, as the channels
-- of an `AudioBuffer`. Which formats `copyTo` takes is the browser's.
use streammix.Common.{
  ℕ, zero, suc, ◌+◌, ◌≡◌, ◌⊎◌, inl, inr, refl, List, [], ◌∷◌, Option, none, some, length,
  Option-cases,
}
use streammix.Audio.Decoder.{channels, plane, interleave, lefts, rights, plane-interleave}

-- `AudioData`. `none` where `copyTo` throws.
pub record AudioData (A : Type 0) : Type 0 where
  pub number_of_frames : ℕ
  -- `copyTo(tmp, { planeIndex: ch, format: "f32-planar" })`
  pub planar : ℕ → Option (List A)
  -- `copyTo(interleaved, { planeIndex: 0, format: "f32" })`
  pub interleaved : Option (List A)

module _ {A : Type 0} where
  abbrev pub add_channel : Option (List A) → Option (List (List A)) → Option (List (List A))
  add_channel (some samples) (some rest) = some (samples ∷ rest)
  add_channel _ _ = none

  -- The loop of the `try` block, `left` rounds from channel `ch` on; `none` where a round throws.
  unfoldable pub copy_planes : (ℕ → Option (List A)) → ℕ → ℕ → Option (List (List A))
  copy_planes planar zero ch = some []
  copy_planes planar (suc left) ch = add_channel (planar ch) (copy_planes planar left (ch + 1))

  -- The loop of the fallback.
  unfoldable pub split_planes : List A → A → ℕ → ℕ → ℕ → List (List A)
  split_planes interleaved silence frames zero ch = []
  split_planes interleaved silence frames (suc left) ch =
      plane interleaved silence ch frames 0 ∷ split_planes interleaved silence frames left (ch + 1)

  abbrev pub fall_back : Option (List A) → A → ℕ → Option (List (List A))
  fall_back none silence frames = none
  fall_back (some interleaved) silence frames =
      some (split_planes interleaved silence frames channels 0)

  abbrev pub planes_or : Option (List (List A)) → Option (List (List A)) → Option (List (List A))
  planes_or (some planes) rest = some planes
  planes_or none rest = rest

  -- The channels that `onDecoded` is given, `none` where the callback throws. The fallback sets every
  -- channel, so nothing stays of a loop that broke off.
  unfoldable pub output : AudioData A → A → Option (List (List A))
  output audio silence =
      planes_or (copy_planes audio.planar channels 0)
        (fall_back audio.interleaved silence audio.number_of_frames)

  -- The decoder gives the samples plane by plane, or it throws for one of the planes and gives them
  -- interleaved.
  abbrev pub Gives : AudioData A → List (A × A) → Type 0
  Gives audio samples =
      (audio.number_of_frames ≡ length samples)
      × (((audio.planar 0 ≡ some (lefts samples)) × (audio.planar 1 ≡ some (rights samples)))
          ⊎ (((audio.planar 0 ≡ none) ⊎ (audio.planar 1 ≡ none))
              × (audio.interleaved ≡ some (interleave samples))))

  copy_planes_broken :
      (audio : AudioData A)
      → (audio.planar 0 ≡ none) ⊎ (audio.planar 1 ≡ none)
      → copy_planes audio.planar channels 0 ≡ none
  unfolding copy_planes
  copy_planes_broken audio (inl e) = rw e refl
  copy_planes_broken audio (inr e) = elim (Option-cases (audio.planar 0)) [
    | inl none_first ↦ rw none_first refl
    | inr (first, known) ↦ rw (known, e) refl
  ]

  -- Whichever of the two formats the browser's decoder has, the buffer that goes to the scheduler has the
  -- left samples in its first channel and the right ones in its second.
  pub output_lem :
      (audio : AudioData A) (silence : A) (samples : List (A × A))
      → Gives audio samples
      → output audio silence ≡ some (lefts samples ∷ rights samples ∷ [])
  unfolding output
  output_lem audio silence samples (frames, inl (left, right)) =
      unfold copy_planes in rw (left, right) refl
  output_lem audio silence samples (frames, inr (broken, given)) =
      let (first, second) = plane-interleave samples silence in
      rw (copy_planes_broken audio broken, given, frames)
        (unfold split_planes in rw (first, second) refl)
