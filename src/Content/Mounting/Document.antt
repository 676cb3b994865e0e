-- ===== src/Content/Mounting/Document.antt =====
-- extension/src/content/index.ts: what `mount` puts into the document, the panel and the two listeners that
-- resume the audio context, and what `destroy()` takes out again.
use streammix.Common.{
  ℕ, ◌≡◌, Bool, true, false, ◌==◌, List, [], ◌∷◌, ◌++◌, Option, none, some, if◌then◌else◌,
}
use streammix.Audio.Scheduler.{remove, lists}
use streammix.Content.Mounting.{Tab, on_address, on_player, on_loaded, new_tab}

-- `ctx.state`
pub data ContextState : Type 0 where
  suspended running closed : ContextState

abbrev pub is_suspended : ContextState → Bool
is_suspended suspended = true
is_suspended other = false

-- Calls of `mount` are numbered as in Content/Mounting.
pub record Document : Type 0 where
  -- The panels under `document.body`.
  pub panels : List ℕ
  -- The `resumeAudio` of which calls listen to clicks, and to "play" of their own video.
  pub clicks : List ℕ
  pub plays : List ℕ
  -- `hooks.video` and `graph.ctx.state` of a call.
  pub videos : ℕ → ℕ
  pub contexts : ℕ → ContextState

abbrev pub update {ℓ} : {A : Type ℓ} → ℕ → A → (ℕ → A) → ℕ → A
update id a f i = if i == id then a else f i

-- `buildGraph(hooks.video)`: the player's video, and the state in which the browser opens the context.
abbrev pub build : ℕ → Option (ℕ × ContextState) → Document → Document
build id none d = d
build id (some (video, state)) d = record d {
  videos = update id video d.videos;
  contexts = update id state d.contexts;
}

-- The listeners and the panel that the rest of `mount` adds.
unfoldable pub show : ℕ → Document → Document
show id d = record d {
  clicks = d.clicks ++ (id ∷ []);
  plays = d.plays ++ (id ∷ []);
  panels = d.panels ++ (id ∷ []);
}

-- `destroy()`: the listeners and the panel. The context is closed by the browser, when it comes to it.
unfoldable pub hide : ℕ → Document → Document
hide id d = record d {
  clicks = remove id d.clicks;
  plays = remove id d.plays;
  panels = remove id d.panels;
}

-- `active?.destroy()`
abbrev pub hide_active : Option ℕ → Document → Document
hide_active none d = d
hide_active (some id) d = hide id d

-- `resumeAudio`: the contexts whose `resume()` is called.
abbrev pub resume_audio : (ℕ → ContextState) → ℕ → List ℕ
resume_audio contexts id = if is_suspended (contexts id) then id ∷ [] else []

abbrev pub resume_each : (ℕ → ContextState) → List ℕ → List ℕ
resume_each contexts [] = []
resume_each contexts (id ∷ ids) = resume_audio contexts id ++ resume_each contexts ids

-- A click anywhere.
unfoldable pub on_click : Document → List ℕ
on_click d = resume_each d.contexts d.clicks

abbrev pub resume_playing : ℕ → Document → List ℕ → List ℕ
resume_playing video d [] = []
resume_playing video d (id ∷ ids) =
    (if d.videos id == video then resume_audio d.contexts id else []) ++ resume_playing video d ids

-- A video begins to play.
unfoldable pub on_play : ℕ → Document → List ℕ
on_play video d = resume_playing video d d.plays

abbrev pub new_document : Document
new_document = record {
  panels = [];
  clicks = [];
  plays = [];
  videos = λ id. 0;
  contexts = λ id. closed;
}

abbrev pub has_found {ℓ} : {A : Type ℓ} → Option A → Bool
has_found none = false
has_found (some a) = true

-- A tab with its document, after what the page and the browser have done, in any order.
pub data Opened : Tab → Document → Type 0 where
  first : (has_channel : Bool) → Opened (new_tab has_channel) new_document
  moved :
      {t : Tab} {d : Document} (has_channel : Bool)
      → Opened t d
      → Opened (on_address has_channel t) (hide_active t.active d)
  waited :
      {t : Tab} {d : Document} (id : ℕ) (player : Option (ℕ × ContextState))
      → Opened t d
      → lists t.waiting id ≡ true
      → Opened (on_player id (has_found player) t) (build id player d)
  finished :
      {t : Tab} {d : Document} (id : ℕ)
      → Opened t d
      → lists t.loading id ≡ true
      → Opened (on_loaded id t) (show id d)
  -- The browser suspends, resumes or closes a context.
  turned :
      {t : Tab} {d : Document} (id : ℕ) (state : ContextState)
      → Opened t d
      → Opened t (record d { contexts = update id state d.contexts })
