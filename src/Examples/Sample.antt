-- ===== src/Examples/Sample.antt =====
-- Inputs that the examples share. `codec_of obj` stands for the runtime's JSON codec on one object: the
-- text is `sample_text`, and nothing else parses.
use streammix.Common.{ℕ, refl, arith, inl, inr, List, [], ◌∷◌, some, none, if◌then◌else◌}
use streammix.Common.Text.{text, text_eq}
use streammix.Common.Number.{num}
use streammix.Categories.{is_valid_slug, slug_re, is_slug_char, is_preset_category}
use streammix.Messages.TrackList.WellFormed.{AreTracks}
use streammix.Json.{JsonText, Fields, object}
use streammix.Messages.TrackList.{TrackInfo}

abbrev pub sample_text : List ℕ
sample_text = text "{sample}"

abbrev pub codec_of : Fields → JsonText
codec_of obj = record {
  stringify = λ value. sample_text;
  parse = λ bytes. if text_eq bytes sample_text then some (object obj) else none;
}

abbrev pub game_track : TrackInfo
game_track = record { id = num 1; slug = text "game"; category = text "game"; label = text "Game" }

abbrev pub pad_track : TrackInfo
pad_track = record {
  id = num 2;
  slug = text "drum-pad";
  category = text "custom";
  label = text "Drum Pad";
}

abbrev pub sample_tracks : List TrackInfo
sample_tracks = game_track ∷ pad_track ∷ []

pub sample_tracks-AreTracks : AreTracks [] sample_tracks
unfolding is_valid_slug slug_re is_slug_char is_preset_category
sample_tracks-AreTracks = (
  record {
    slot = (1, refl, omega arith, omega arith);
    slug_length = omega arith;
    slug = refl;
    category_length = omega arith;
    category = inr refl;
    label = omega arith;
  },
  refl,
  (
    record {
      slot = (2, refl, omega arith, omega arith);
      slug_length = omega arith;
      slug = refl;
      category_length = omega arith;
      category = inl refl;
      label = omega arith;
    },
    refl,
    tt,
  ),
)
