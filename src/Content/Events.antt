-- ===== src/Content/Events.antt =====
-- extension/src/content/index.ts: runs of the relay's events and the panel's callbacks.
pub mod Keys
pub mod Keeps
pub mod Invariant
pub mod Playing
use streammix.Common.{ℕ, List, [], ◌∷◌}
use streammix.Common.Number.{Number}
use streammix.Common.Text.{Text}
use streammix.Messages.TrackList.{TrackInfo}
use streammix.Content.{Mixer, Page, new_mixer, on_track_list, on_audio}
use streammix.Content.Panel.{
  on_change, on_mute_toggle, on_solo_toggle, on_broadcast_change, on_offset_change, on_reset,
}

pub data Event : Type 0 where
  track_list : List TrackInfo → Event
  audio : Number → ℕ → Event
  change : Text → Number → Event
  mute_toggle solo_toggle : Text → Event
  broadcast_change offset_change : Number → Event
  reset : Event

module _ (page : Page) where
  unfoldable pub handle : Event → Mixer → Mixer
  handle (track_list incoming) m = on_track_list page incoming m
  handle (audio track_id seq) m = (on_audio page track_id seq m).0
  handle (change slug v) m = on_change slug v m
  handle (mute_toggle slug) m = on_mute_toggle slug m
  handle (solo_toggle slug) m = on_solo_toggle slug m
  handle (broadcast_change v) m = on_broadcast_change v m
  handle (offset_change ms) m = on_offset_change page ms m
  handle reset m = on_reset page m

  -- The events from the first to the last.
  unfoldable pub handle_all : List Event → Mixer → Mixer
  handle_all [] m = m
  handle_all (e ∷ es) m = handle_all es (handle e m)
