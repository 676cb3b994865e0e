-- ===== src/Content/Saved.antt =====
-- extension/src/content/index.ts with extension/src/store/prefs.ts: what "Save for this streamer" keeps for the
-- next page.
use streammix.Common.{◌≡◌, refl, List, ◌++◌, some}
use streammix.Common.Assoc.{get, get-set}
use streammix.Common.Text.{Text, text_eq_refl}
use streammix.Messages.TrackList.{TrackInfo}
use streammix.Store.{
  ChannelSetting, Prefs, load_streamer, save_streamer, storage_get, storage_set, effective_setting,
  property, streamer_key_prefix,
}
use streammix.Content.{Mixer, Page}
use streammix.Content.Panel.{on_save_streamer}

load_streamer-on_save_streamer :
    (page : Page) (m : Mixer) (items : List (Text × Prefs))
    → load_streamer (on_save_streamer page m (some items)) page.channel_id ≡ m.settings
unfolding load_streamer on_save_streamer save_streamer storage_get storage_set
load_streamer-on_save_streamer page m items =
    rw
      (
        get-set (streamer_key_prefix ++ page.channel_id) (streamer_key_prefix ++ page.channel_id)
            m.settings items,
        text_eq_refl (streamer_key_prefix ++ page.channel_id),
      )
      refl

effective_setting_own :
    (slug category : Text) (streamer global : Prefs) (s : ChannelSetting)
    → get slug streamer ≡ some s
    → effective_setting slug category streamer global ≡ s
unfolding effective_setting property
effective_setting_own slug category streamer global s known =
    rw (effective_setting, property, known) refl

-- After "Save for this streamer", with a browser that stores: on the next page of the channel, a track of any
-- slug that had a setting starts with that setting, whatever its category and the preferences for all
-- streamers.
pub effective_setting-on_save_streamer :
    (page : Page) (m : Mixer) (items : List (Text × Prefs)) (t : TrackInfo) (global : Prefs)
    (s : ChannelSetting)
    → get t.slug m.settings ≡ some s
    → effective_setting t.slug t.category
        (load_streamer (on_save_streamer page m (some items)) page.channel_id)
        global
      ≡ s
effective_setting-on_save_streamer page m items t global s known =
    rw (load_streamer-on_save_streamer page m items)
      (effective_setting_own t.slug t.category m.settings global s known)
