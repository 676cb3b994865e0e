-- ===== src/Ui/MixerPanel/Controls.antt =====
-- The controls of extension/src/ui/Mixer.svelte one after the other, the settings button among them.
use streammix.Common.{
  ◌≡◌, refl, Bool, true, false, not, List, [], ◌∷◌, ◌++◌, sym, ◌∙◌, arith, if◌then◌else◌,
}
use streammix.Common.Number.{Number}
use streammix.Common.Text.{Text}
use streammix.Content.{Mixer, Page}
use streammix.Content.Events.{Event, reset, handle, handle_all}
use streammix.Ui.MixerPanel.{
  click_icon, handle_slider_input, handle_broadcast_input, handle_offset_input,
}

-- What the viewer uses: a row's icon, with the Shift key or without; a slider, with its new value; a button.
pub data Control : Type 0 where
  icon : Bool → Text → Control
  slider : Text → Text → Control
  broadcast_slider offset_slider : Text → Control
  settings_button reset_button save_button : Control

-- The panel: `showSettings`, and the mixer that the callbacks of its props change.
pub record Panel : Type 0 where
  pub show_settings : Bool
  pub mixer : Mixer

module _ (page : Page) (to_number : Text → Number) (hundredth : Number → Number) where
  -- The callbacks that the control calls, less `onSaveStreamer`, which changes nothing of the mixer: the offset's
  -- slider is there only if the settings are open.
  abbrev pub calls : Bool → Control → List Event
  calls show_settings (icon shift_key slug) = click_icon shift_key slug ∷ []
  calls show_settings (slider slug value) = handle_slider_input to_number hundredth slug value ∷ []
  calls show_settings (broadcast_slider value) =
      handle_broadcast_input to_number hundredth value ∷ []
  calls show_settings (offset_slider value) =
      if show_settings then handle_offset_input to_number hundredth value ∷ [] else []
  calls show_settings settings_button = []
  calls show_settings reset_button = reset ∷ []
  calls show_settings save_button = []

  -- `showSettings = !showSettings`
  abbrev pub switch : Control → Bool → Bool
  switch settings_button show_settings = not show_settings
  switch other show_settings = show_settings

  unfoldable pub use_control : Control → Panel → Panel
  use_control c p = record {
    show_settings = switch c p.show_settings;
    mixer = handle_all page (calls p.show_settings c) p.mixer;
  }

  unfoldable pub use_controls : List Control → Panel → Panel
  use_controls [] p = p
  use_controls (c ∷ cs) p = use_controls cs (use_control c p)

  -- All the callbacks of a run.
  abbrev pub all_calls : Bool → List Control → List Event
  all_calls show_settings [] = []
  all_calls show_settings (c ∷ cs) = calls show_settings c ++ all_calls (switch c show_settings) cs

  handle_all-++ :
      (es fs : List Event) (m : Mixer)
      → handle_all page (es ++ fs) m ≡ handle_all page fs (handle_all page es m)
  unfolding handle_all
  handle_all-++ [] fs m = refl
  handle_all-++ (e ∷ es) fs m = handle_all-++ es fs (handle page e m)

  -- What the viewer does on the panel is a run of the events of Content/Events, so that what is shown there of
  -- all runs holds for the panel.
  pub use_controls_mixer :
      (cs : List Control) (p : Panel)
      → (use_controls cs p).mixer ≡ handle_all page (all_calls p.show_settings cs) p.mixer
  unfolding use_controls use_control handle_all
  use_controls_mixer [] p = refl
  use_controls_mixer (c ∷ cs) p =
      use_controls_mixer cs (use_control c p)
      ∙ sym (
          handle_all-++ (calls p.show_settings c) (all_calls (switch c p.show_settings) cs) p.mixer)

  abbrev pub is_settings : Control → Bool
  is_settings settings_button = true
  is_settings other = false

  abbrev pub is_odd : List Control → Bool
  is_odd [] = false
  is_odd (c ∷ cs) = let rest = is_odd cs in if is_settings c then not rest else rest

  -- The settings are open after a run exactly if the button was used an odd number of times on closed settings,
  -- or an even number of times on open ones.
  pub use_controls_show_settings :
      (cs : List Control) (p : Panel)
      → (use_controls cs p).show_settings
        ≡ (if is_odd cs then not p.show_settings else p.show_settings)
  unfolding use_controls use_control
  use_controls_show_settings [] p = refl
  use_controls_show_settings (c ∷ cs) p =
      ground (arith, use_controls_show_settings cs (use_control c p))
