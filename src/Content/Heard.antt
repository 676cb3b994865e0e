-- ===== src/Content/Heard.antt =====
-- extension/src/content/index.ts: how loud a track is heard, against what the panel shows.
pub mod Callbacks
pub mod Lists
pub mod Settings
pub mod Runs
pub mod Levels
pub mod LevelRuns
use streammix.Common.{
  ◌≡◌, refl, sym, ap, ◌∙◌, Bool, true, false, ◌||◌, List, [], ◌∷◌, Option, none, some, some-eq,
  if◌then◌else◌, arith, Bool-cases, inl, inr,
}
use streammix.Common.Assoc.{get, set, get-set}
use streammix.Common.Number.{Number, num}
use streammix.Common.Text.{Text, text_eq, text_eq_iff, text_eq→eq}
use streammix.Audio.Graph.{Graph, set_track_gain, clamp01}
use streammix.Audio.Graph.Wiring.{IsWired}
use streammix.Audio.Graph.Values.{user_value, user_value-set_track_gain}
use streammix.Content.{Mixer, is_muted, gain_of, truthy}

-- What the panel asks for: silence for a muted slug, else the gain, within its range.
abbrev pub wanted : List (Text × Option Number) → List (Text × Option Bool) → Text → Number
wanted gains muted s = clamp01 (if is_muted muted s then num 0 else gain_of gains s)

-- Of the slugs that `seen` holds, those that have a user node have it at the wanted gain.
abbrev pub IsHeard :
    (Text → Bool) → List (Text × Option Number) → List (Text × Option Bool) → Graph → Type 0
IsHeard seen gains muted g =
    (s : Text) (v : Number) → seen s ≡ true → user_value g s ≡ some v → v ≡ wanted gains muted s

abbrev pub everything : Text → Bool
everything s = true

pub is_muted-set :
    (k s : Text) (b : Bool) (muted : List (Text × Option Bool))
    → is_muted (set k (some b) muted) s ≡ (if text_eq k s then b else is_muted muted s)
unfolding is_muted
is_muted-set k s b muted = rw (is_muted, get-set k s (some b) muted) (ground arith)

pub is_muted-set_option :
    (k s : Text) (b : Option Bool) (muted : List (Text × Option Bool))
    → is_muted (set k b muted) s ≡ (if text_eq k s then truthy b else is_muted muted s)
unfolding is_muted
is_muted-set_option k s b muted = rw (is_muted, get-set k s b muted) (ground arith)

pub gain_of-set :
    (k s : Text) (v : Number) (gains : List (Text × Option Number))
    → gain_of (set k (some v) gains) s ≡ (if text_eq k s then v else gain_of gains s)
unfolding gain_of
gain_of-set k s v gains = rw (gain_of, get-set k s (some v) gains) (ground arith)

-- One call of `setTrackGain`, where the panel's values change for its slug only.
module _ (seen seen' : Text → Bool) (gains gains' : List (Text × Option Number))
    (muted muted' : List (Text × Option Bool)) where
  pub IsHeard-set_track_gain :
      (k : Text) (v : Number) (g : Graph)
      → IsWired g
      → ((s : Text) → text_eq k s ≡ false → seen' s ≡ true → seen s ≡ true)
      → ((s : Text) → text_eq k s ≡ false → wanted gains' muted' s ≡ wanted gains muted s)
      → clamp01 v ≡ wanted gains' muted' k
      → IsHeard seen gains muted g
      → IsHeard seen' gains' muted' (set_track_gain k v g)
  IsHeard-set_track_gain k v g w before others own heard s x h e =
      let e' = user_value-set_track_gain k s v g {x = x} w e in
      elim (Bool-cases (text_eq k s)) [
        | inl same ↦
            let now : some (clamp01 v) ≡ some x = rw same at e' in
            sym (some-eq now) ∙ own ∙ ap (wanted gains' muted') (text_eq→eq k s same)
        | inr other ↦
            let old : user_value g s ≡ some x = rw other at e' in
            heard s x (before s other h) old ∙ sym (others s other)
      ]
