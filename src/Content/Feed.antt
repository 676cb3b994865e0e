-- ===== src/Content/Feed.antt =====
-- extension/src/content/index.ts: what the callbacks that `mount` gives to the relay client do with what the
-- client hears.
use streammix.Common.{List, [], ◌∷◌, ◌++◌, Option, none, some}
use streammix.Common.Int.{ℤ}
use streammix.Common.Number.{to_uint}
use streammix.Common.Text.{Text}
use streammix.Content
use streammix.Content.{Mixer, Page}
use streammix.Relay.Dispatch.{
  RelayEvent, on_track_list, on_audio, on_fingerprint, on_track_meta, on_error,
}

abbrev pub chunk_list : Option (Text × ℤ) → List (Text × ℤ)
chunk_list none = []
chunk_list (some chunk) = chunk ∷ []

module _ (page : Page) where
  -- The mixer after a callback, and the slug and timestamp of each chunk that goes to a decoder. There is no
  -- callback for fingerprints and track metadata, and the one for errors only prints.
  unfoldable pub on_event : RelayEvent → Mixer → Mixer × List (Text × ℤ)
  on_event (on_track_list incoming) m = (Content.on_track_list page incoming m, [])
  on_event (on_audio track frame) m =
      let (m, chunk) = Content.on_audio page track (to_uint 32 frame.seq) m in (m, chunk_list chunk)
  on_event (on_fingerprint track hash window_ms) m = (m, [])
  on_event (on_track_meta track meta) m = (m, [])
  on_event (on_error code message) m = (m, [])

  -- The calls of the client from the first to the last, `none` for a message that calls nothing.
  unfoldable pub feed : List (Option RelayEvent) → Mixer → Mixer × List (Text × ℤ)
  feed [] m = (m, [])
  feed (none ∷ calls) m = feed calls m
  feed (some event ∷ calls) m =
      let (m, chunks) = on_event event m in let (m, more) = feed calls m in (m, chunks ++ more)
