-- ===== src/Examples/Panels.antt =====
-- What the viewer sees, and how the content script is mounted, on concrete inputs.
use streammix.Common.{◌↔◌, List, ◌≡◌, ◌≢◌, refl, true, false, [], ◌∷◌, none, some, ℕ}
use streammix.Common.Number.{Number}
use streammix.Common.Text.{text}
use streammix.Audio.Scheduler.{lists}
use streammix.Content.{Mixer, new_mixer, on_track_list, apply_track_list}
use streammix.Content.Events.{handle}
use streammix.Content.Mounting.{
  Tab, new_tab, mount, unmount, on_address, on_player, on_loaded, Reach, start, next, address,
  player, loaded, CalmReach, calm_start, calm_player, calm_loaded,
}
use streammix.Content.Mounting.Document.{
  Document, show, update, suspended, closed, Opened, first, waited, finished, on_click, on_play,
}
use streammix.Content.Mounting.Shown.{Opened-CalmReach}
use streammix.Content.Mounting.Leaks.{done, further, overtaken_stays}
use streammix.Platform.{twitch}
use streammix.Platform.Player.{
  Observation, resolved, find_player, wait_for_player, on_mutation, on_mutations,
}
use streammix.Platform.Player.Settling.{Settles, wait_for_player_lem}
use streammix.Ui.MixerPanel.{row_of, click_icon}
use streammix.Ui.MixerPanel.Clicks.{shown_muted, muted_by, row_of-click_icon}
use streammix.Ui.Popup.{trim, trim_left, trim_right, is_space, is_relay_url}
use streammix.Examples.Sample.{pad_track, sample_tracks}
use streammix.Examples.Mixing.{page}

-- A document without a player, and later one with it.
abbrev bare : ℕ → Observation ℕ
bare now = record { query = λ selector. none; now = now }

abbrev hydrated : Observation ℕ
hydrated = record { query = λ selector. some 3; now = 200 }

-- A change after a second without the player, and one after two minutes.
abbrev in_vain : List (Observation ℕ)
in_vain = bare 1000 ∷ bare 120000 ∷ []

wait_for_player_lem_example :
    (on_mutations twitch 15000 in_vain (wait_for_player twitch (bare 5)) ≡ resolved none)
    ↔ Settles twitch 15000 (bare 5) in_vain (resolved none)
wait_for_player_lem_example = wait_for_player_lem twitch 15000 (bare 5) in_vain (resolved none)

found_player :
    on_mutations twitch 15000 (bare 100 ∷ hydrated ∷ []) (wait_for_player twitch (bare 5))
    ≡ resolved (some (record { video = 3; control_bar = 3 }))
unfolding on_mutations on_mutation wait_for_player find_player
found_player = refl

calm_tab : CalmReach (on_loaded 0 (on_player 0 true (new_tab true)))
unfolding mount on_player
calm_tab = calm_loaded 0 (calm_player 0 true (calm_start true) refl) refl

-- The player's video is the seventh, and the browser opens the context suspended.
abbrev mounted_document : Document
mounted_document = record {
  panels = 0 ∷ [];
  clicks = 0 ∷ [];
  plays = 0 ∷ [];
  videos = update 0 7 (λ id. 0);
  contexts = update 0 suspended (λ id. closed);
}

mounted_document-Opened : Opened (on_loaded 0 (on_player 0 true (new_tab true))) mounted_document
unfolding mount on_player show
mounted_document-Opened = finished 0 (waited 0 (some (7, suspended)) (first true) refl) refl

Opened-CalmReach_example :
    (mounted_document.panels ≡ 0 ∷ [])
    × (on_click mounted_document ≡ 0 ∷ [])
    × (on_play 7 mounted_document ≡ 0 ∷ [])
unfolding on_loaded
Opened-CalmReach_example = Opened-CalmReach 7 mounted_document-Opened calm_tab

-- The address changes before the first player is there; both calls of `mount` go on.
abbrev both_loading : Tab
both_loading = on_player 1 true (on_player 0 true (on_address true (new_tab true)))

abbrev overtaken : Tab
overtaken = on_loaded 0 both_loading

overtaken-Reach : Reach overtaken
unfolding mount unmount on_address on_player
overtaken-Reach =
    next
      (next
        (next (next (start true) (address (new_tab true) true))
          (player (on_address true (new_tab true)) 0 true refl))
        (player (on_player 0 true (on_address true (new_tab true))) 1 true refl))
      (loaded both_loading 0 refl)

overtaken_tests : (overtaken.active ≡ some 0) × (lists overtaken.loading 1 ≡ true)
unfolding mount unmount on_address on_player on_loaded
overtaken_tests = (refl, refl)

abbrev afterwards : Tab
afterwards = on_address true (on_loaded 1 overtaken)

overtaken_stays_example : (lists afterwards.live 0 ≡ true) × (afterwards.active ≢ some 0)
overtaken_stays_example =
    overtaken_stays overtaken 1 0 overtaken-Reach overtaken_tests.0 overtaken_tests.1
      (further done (address (on_loaded 1 overtaken) true))

abbrev listening : Mixer
listening = on_track_list page sample_tracks (new_mixer page)

abbrev same_number : Number → Number
same_number n = n

row_of-click_icon_example :
    row_of same_number (handle page (click_icon true (text "game")) listening) pad_track
    ≡ shown_muted
        (muted_by true (text "game") (row_of same_number listening pad_track))
        (row_of same_number listening pad_track)
row_of-click_icon_example =
    row_of-click_icon page same_number true (text "game") pad_track listening
      (unfold on_track_list apply_track_list in refl)

popup_test :
    (trim (text " wss://relay.example ") ≡ text "wss://relay.example")
    × (is_relay_url (text "wss://relay.example") ≡ true)
    × (is_relay_url (text "wss://relay example") ≡ false)
    × (is_relay_url (text "ws://relay.example") ≡ false)
unfolding trim trim_left trim_right is_space is_relay_url
popup_test = (refl, refl, refl, refl)
