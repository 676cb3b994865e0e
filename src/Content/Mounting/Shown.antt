-- ===== src/Content/Mounting/Shown.antt =====
-- extension/src/content/index.ts: which panels and listeners of `mount` the document has.
use streammix.Common.{
  ℕ, ◌≡◌, refl, ap, sym, ◌∙◌, Bool, true, false, ◌==◌, ◌&&◌, List, [], ◌∷◌, ◌++◌, Option, none,
  some, if◌then◌else◌, arith,
}
use streammix.Audio.Scheduler.{remove}
use streammix.Content.Mounting.{
  Tab, mount, unmount, on_address, on_player, on_loaded, destroy_one, CalmReach,
}
use streammix.Content.Mounting.Calm.{IsCalm, at_player, at_prefs, mounted, idle, CalmReach-IsCalm}
use streammix.Content.Mounting.Document.{
  ContextState, is_suspended, Document, build, show, hide, hide_active, resume_each, on_click,
  resume_playing, on_play, has_found, Opened, first, moved, waited, finished, turned,
}

-- The document has the panels and the listeners of the mixers that were not destroyed, and no others.
record Shows (t : Tab) (d : Document) : Type 0 where
  panels : d.panels ≡ t.live
  clicks : d.clicks ≡ t.live
  plays : d.plays ≡ t.live

mount_live : (has_channel : Bool) (t : Tab) → (mount has_channel t).live ≡ t.live
unfolding mount
mount_live true t = refl
mount_live false t = refl

Shows-moved :
    (has_channel : Bool) (t : Tab) (d : Document)
    → Shows t d
    → Shows (on_address has_channel t) (hide_active t.active d)
unfolding on_address unmount hide
Shows-moved b t d s =
    elim t.active
      as (λ a.
        Shows (mount b (record t { live = destroy_one a t.live; active = none }))
          (hide_active a d)) [
            | none ↦ record {
              panels = s.panels ∙ sym (mount_live b _);
              clicks = s.clicks ∙ sym (mount_live b _);
              plays = s.plays ∙ sym (mount_live b _);
            }
            | some id ↦ record {
              panels = ap (remove id) s.panels ∙ sym (mount_live b _);
              clicks = ap (remove id) s.clicks ∙ sym (mount_live b _);
              plays = ap (remove id) s.plays ∙ sym (mount_live b _);
            }
          ]

Shows-build :
    (id : ℕ) (player : Option (ℕ × ContextState)) (t : Tab) (d : Document)
    → Shows t d
    → Shows (on_player id (has_found player) t) (build id player d)
unfolding on_player
Shows-build id none t d s = record { panels = s.panels; clicks = s.clicks; plays = s.plays }
Shows-build id (some p) t d s = record { panels = s.panels; clicks = s.clicks; plays = s.plays }

Shows-show : (id : ℕ) (t : Tab) (d : Document) → Shows t d → Shows (on_loaded id t) (show id d)
unfolding on_loaded show
Shows-show id t d s = record {
  panels = ap (λ ids. ids ++ (id ∷ [])) s.panels;
  clicks = ap (λ ids. ids ++ (id ∷ [])) s.clicks;
  plays = ap (λ ids. ids ++ (id ∷ [])) s.plays;
}

Opened-Shows : {t : Tab} {d : Document} → Opened t d → Shows t d
unfolding mount
Opened-Shows (first true) = record { panels = refl; clicks = refl; plays = refl }
Opened-Shows (first false) = record { panels = refl; clicks = refl; plays = refl }
Opened-Shows (moved {t} {d} b o) = Shows-moved b t d (Opened-Shows o)
Opened-Shows (waited {t} {d} id player o h) = Shows-build id player t d (Opened-Shows o)
Opened-Shows (finished {t} {d} id o h) = Shows-show id t d (Opened-Shows o)
Opened-Shows (turned id state o) =
    let s = Opened-Shows o in record { panels = s.panels; clicks = s.clicks; plays = s.plays }

-- What a page shows that has one mixer at most: the panel of the active one; and whose contexts are asked to
-- resume.
abbrev pub panel_of : Option ℕ → List ℕ
panel_of none = []
panel_of (some id) = id ∷ []

abbrev asked : Bool → ℕ → List ℕ
asked test id = if test then id ∷ [] else []

abbrev pub asked_by_click : Document → Option ℕ → List ℕ
asked_by_click d none = []
asked_by_click d (some id) = asked (is_suspended (d.contexts id)) id

abbrev pub asked_by_play : ℕ → Document → Option ℕ → List ℕ
asked_by_play video d none = []
asked_by_play video d (some id) = asked (d.videos id == video && is_suspended (d.contexts id)) id

IsCalm-live : {t : Tab} → IsCalm t → t.live ≡ panel_of t.active
IsCalm-live (at_player id w l a v) = rw a v
IsCalm-live (at_prefs id w l a v) = rw a v
IsCalm-live (mounted id w l a v) = rw a v
IsCalm-live (idle w l a v) = rw a v

resume_each-panel_of :
    (active : Option ℕ) (d : Document)
    → resume_each d.contexts (panel_of active) ≡ asked_by_click d active
resume_each-panel_of none d = refl
resume_each-panel_of (some id) d = ground arith

resume_playing-panel_of :
    (active : Option ℕ) (video : ℕ) (d : Document)
    → resume_playing video d (panel_of active) ≡ asked_by_play video d active
resume_playing-panel_of none video d = refl
resume_playing-panel_of (some id) video d = ground arith

-- Whatever the page and the browser have done, in a tab that is reached with the address changing only while
-- no call of `mount` is under way: the document has the panel of the active mixer and no other; a click asks the audio context
-- of that mixer to resume if it is suspended, and no other context; and so does a video that begins to play,
-- if it is the mixer's own.
pub Opened-CalmReach :
    {t : Tab} {d : Document} (video : ℕ)
    → Opened t d
    → CalmReach t
    → (d.panels ≡ panel_of t.active)
      × (on_click d ≡ asked_by_click d t.active)
      × (on_play video d ≡ asked_by_play video d t.active)
unfolding on_click on_play
Opened-CalmReach {t} {d} video o calm =
    let s = Opened-Shows o in
    let alive = IsCalm-live (CalmReach-IsCalm calm) in
    (
      s.panels ∙ alive,
      ap (resume_each d.contexts) (s.clicks ∙ alive) ∙ resume_each-panel_of t.active d,
      ap (resume_playing video d) (s.plays ∙ alive) ∙ resume_playing-panel_of t.active video d,
    )
