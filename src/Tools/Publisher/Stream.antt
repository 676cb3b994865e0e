-- ===== src/Tools/Publisher/Stream.antt =====
-- tools/mock-publisher/src/main.ts from the opening of its connection on, as the viewer's client hears it.
use streammix.Common.{
  ℕ, ◌^◌, ◌≤◌, ◌<◌, ◌≡◌, refl, ap, ◌∙◌, true, List, [], ◌∷◌, ◌++◌, map, none, some, length, arith,
  All,
}
use streammix.Messages.Hello.{hello_fields}
use streammix.Constants.MessageType
use streammix.Errors.{Result, ok, ◌>>=◌}
use streammix.Header.{Frame, frame_buffer, has}
use streammix.Header.RoundTrip.{frame_of}
use streammix.Json.{JsonText, IsReadBack, object}
use streammix.Messages.{max_json_bytes}
use streammix.Messages.TrackList.{track_list_fields}
use streammix.Relay.Dispatch.{on_track_list, dispatch, handle_message}
use streammix.Relay.Dispatch.Delivery.{handle_message-frame_buffer}
use streammix.Tools.Publisher.{
  Track, Publisher, tracks, info_of, on_open, new_publisher, hello, Tick, tick_all,
}
use streammix.Tools.Publisher.Delivery.{received, calls_from, heard_ticks}
use streammix.Tools.Publisher.Sending.{IsTick, bytes_from, sending, send-ok, tick_all-Sends}
use streammix.Messages.TrackList.WellFormed.{AreTracks, decode_track_list-encode_track_list}
use streammix.Messages.TrackList.{encode_track_list, decode_track_list}
use streammix.Messages.Hello.{encode_hello}
use streammix.Messages.{encode_json_ok}
use streammix.Common.{inr}
use streammix.Categories.{is_valid_slug, slug_re, is_slug_char, is_preset_category}
use streammix.Messages.TrackList.WellFormed.{IsTrack}

track-IsTrack :
    (t : Track)
    → 1 ≤ t.id
    → t.id ≤ 8
    → length t.slug ≤ 64
    → is_valid_slug t.slug ≡ true
    → length t.category ≤ 32
    → is_preset_category t.category ≡ true
    → length t.label ≤ 64
    → IsTrack (info_of t)
track-IsTrack t lo hi slug_length slug category_length category label = record {
  slot = (t.id, refl, lo, hi);
  slug_length = slug_length;
  slug = slug;
  category_length = category_length;
  category = inr category;
  label = label;
}

pub tracks-AreTracks : AreTracks [] (map info_of tracks)
unfolding is_valid_slug slug_re is_slug_char is_preset_category
tracks-AreTracks = (
  track-IsTrack _ (omega arith) (omega arith) (omega arith) refl (omega arith) refl (omega arith),
  refl,
  (
    track-IsTrack _ (omega arith) (omega arith) (omega arith) refl (omega arith) refl (omega arith),
    refl,
    (
      track-IsTrack _ (omega arith) (omega arith) (omega arith) refl (omega arith) refl
          (omega arith),
      refl,
      tt,
    ),
  ),
)

-- What the tool has after the connection opened and the ticks fell due.
abbrev pub publish : JsonText → ℕ → ℕ → List Tick → Result Publisher
publish json now later ts = on_open json now later new_publisher >>= tick_all ts

module _ (json : JsonText) (now later : ℕ) (a : now < 2 ^ 64) (b : later < 2 ^ 64)
    (fits : length (json.stringify (object (hello_fields hello))) ≤ max_json_bytes)
    (back : IsReadBack json (object (track_list_fields (map info_of tracks))))
    (fits' : length (json.stringify (object (track_list_fields (map info_of tracks))))
      ≤ max_json_bytes) where
  abbrev pub hello_frame : Frame
  hello_frame = frame_of MessageType.hello 0 0 0 now (json.stringify (object (hello_fields hello)))

  abbrev pub list_frame : Frame
  list_frame =
      frame_of MessageType.track_list 0 0 1 later
        (json.stringify (object (track_list_fields (map info_of tracks))))

  abbrev opened : Publisher
  opened = record (sending list_frame (sending hello_frame new_publisher)) {
    timer = true;
    fp_timer = true;
  }

  on_open-ok : on_open json now later new_publisher ≡ ok opened
  unfolding on_open encode_hello encode_track_list
  on_open-ok =
      rw
        (
          encode_json_ok json (object (hello_fields hello)) fits,
          encode_json_ok json (object (track_list_fields (map info_of tracks))) fits',
        )
        (send-ok 0 0 now (json.stringify (object (hello_fields hello))) (omega arith) (omega arith)
            a fits MessageType.hello new_publisher _
          ∙ send-ok 0 1 later (json.stringify (object (track_list_fields (map info_of tracks))))
              (omega arith) (omega arith) b fits' MessageType.track_list
              (sending hello_frame new_publisher) _)

  pub tracks_decoded :
      decode_track_list json (json.stringify (object (track_list_fields (map info_of tracks))))
      ≡ ok (map info_of tracks)
  tracks_decoded =
      let ts = map info_of tracks in
      let text = json.stringify (object (track_list_fields ts)) in
      let sent : encode_track_list json ts ≡ ok text =
        unfold encode_track_list in encode_json_ok json (object (track_list_fields ts)) fits' in
      rw sent at
        (decode_track_list-encode_track_list json ts tracks-AreTracks (omega arith) back fits')

  received-opened : received json opened ≡ none ∷ some (on_track_list (map info_of tracks)) ∷ []
  unfolding new_publisher
  received-opened =
      let ts = map info_of tracks in
      let text = json.stringify (object (track_list_fields ts)) in
      let ignored : handle_message json (frame_buffer hello_frame) ≡ none =
        handle_message-frame_buffer json 0 0 0 now (json.stringify (object (hello_fields hello)))
          MessageType.hello (unfold has in refl) (omega arith) (omega arith) (omega arith) a fits
        ∙ (unfold dispatch in refl) in
      let heard : handle_message json (frame_buffer list_frame) ≡ some (on_track_list ts) =
        handle_message-frame_buffer json 0 0 1 later text MessageType.track_list
          (unfold has in refl) (omega arith) (omega arith) (omega arith) b fits'
        ∙ (unfold dispatch in rw tracks_decoded refl) in
      rw (ignored, heard) refl

  pub publish-sent :
      (ts : List Tick)
      → length ts < 2 ^ 32
      → All IsTick ts
      → (p : Publisher) × (publish json now later ts ≡ ok p)
        × (p.sent ≡ frame_buffer hello_frame ∷ frame_buffer list_frame ∷ bytes_from 1 ts)
  unfolding new_publisher
  publish-sent ts few ticks =
      let (p, run, _, sent) =
        tick_all-Sends 0 ts opened (omega (arith, few)) ticks
          (record { timer = refl; fp_timer = refl; mic = refl; game = refl; music = refl }) in
      (p, rw on_open-ok run, sent)

-- As long as less than 2 ^ 32 ticks have fallen due, in whatever order the two intervals do, and if the
-- JSON texts of the tool's HELLO and track list give the objects back and fit into 4096 bytes, nothing is
-- thrown, and the viewer's client ignores the HELLO, hands on the track list as it is, and then every
-- audio frame and fingerprint of every tick in the order of sending, each under its track and the n-th
-- tick's audio frames with the number n.
pub publish-received :
    (json : JsonText) (now later : ℕ) (ts : List Tick)
    → now < 2 ^ 64
    → later < 2 ^ 64
    → length ts < 2 ^ 32
    → All IsTick ts
    → length (json.stringify (object (hello_fields hello))) ≤ max_json_bytes
    → IsReadBack json (object (track_list_fields (map info_of tracks)))
    → length (json.stringify (object (track_list_fields (map info_of tracks)))) ≤ max_json_bytes
    → (p : Publisher) × (publish json now later ts ≡ ok p)
      × (received json p ≡ none ∷ some (on_track_list (map info_of tracks)) ∷ calls_from 1 ts)
unfolding new_publisher
publish-received json now later ts a b few ticks fits back fits' =
    let (p, run, sent) = publish-sent json now later a b fits back fits' ts few ticks in
    (
      p,
      run,
      ap (map (handle_message json)) sent
          ∙ ap (λ calls. calls ++ map (handle_message json) (bytes_from 1 ts))
              (received-opened json now later a b fits back fits')
          ∙ ap (λ calls. none ∷ some (on_track_list (map info_of tracks)) ∷ calls)
              (heard_ticks json 1 ts (omega arith) ticks),
    )
