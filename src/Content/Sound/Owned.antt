-- ===== src/Content/Sound/Owned.antt =====
-- Which scheduler of extension/src/content/index.ts a sounding source belongs to.
use streammix.Common.{
  ℕ, ◌+◌, ◌<◌, ◌≡◌, ◌≢◌, refl, false, List, [], ◌∷◌, none, some, arith, Bool-cases, inl, inr, ◌==◌,
  if◌then◌else◌,
}
use streammix.Common.Assoc.{get, set, delete, get-set, get-delete, IsMap, IsMap-set, IsMap-delete}
use streammix.Common.Text.{Text, text_eq, text_eq_iff, text_eq_refl}
use streammix.Audio.Decoder.Opus.{WebCodecs}
use streammix.Audio.Scheduler
use streammix.Audio.Scheduler.{AudioClock, remove}
use streammix.Content.Sound.{Playing, stop_all, Voice, silence}

stop_all_self : (ids : List ℕ) → stop_all ids ids ≡ []
stop_all_self [] = refl
stop_all_self (id ∷ ids) = ground (arith, stop_all_self ids)

module _ (clock : AudioClock) (codecs : WebCodecs) where
  -- What sounds is what the schedulers of the lanes list: each lane has a scheduler of its own, whose live
  -- sources are those of it that sound; and no other scheduler has a source that sounds.
  pub record IsOwned (voices : List (Text × Voice clock codecs)) (created : ℕ) (playing : Playing)
      : Type 0 where
    pub unique : IsMap voices
    pub owned :
        (slug : Text) (v : Voice clock codecs)
        → get slug voices ≡ some v
        → playing v.number ≡ v.scheduler.live_sources
    pub number :
        (slug : Text) (v : Voice clock codecs) → get slug voices ≡ some v → v.number < created
    pub apart :
        (a b : Text) (v w : Voice clock codecs)
        → get a voices ≡ some v
        → get b voices ≡ some w
        → v.number ≡ w.number
        → a ≡ b
    pub still :
        (n : ℕ)
        → ((slug : Text) (v : Voice clock codecs) → get slug voices ≡ some v → v.number ≢ n)
        → playing n ≡ []

  module _ (voices : List (Text × Voice clock codecs)) (created : ℕ) (playing : Playing)
      (o : IsOwned voices created playing) (slug : Text) (v : Voice clock codecs) where
    -- The lane goes on with other live sources.
    pub IsOwned-set :
        (old : Voice clock codecs) (playing' : Playing)
        → get slug voices ≡ some old
        → v.number ≡ old.number
        → ((n : ℕ) → playing' n ≡ (if v.number == n then v.scheduler.live_sources else playing n))
        → IsOwned (set slug v voices) created playing'
    IsOwned-set old playing' known same now = record {
      unique = IsMap-set slug v voices o.unique;
      owned = λ a w h. ground (
        arith,
        get-set slug a v voices,
        text_eq_iff slug a,
        now w.number,
        o.owned a w,
        o.apart slug a old w known,
      );
      number =
          λ a w h. ground (arith, get-set slug a v voices, o.number a w, o.number slug old known);
      apart = λ a b x y h k e. ground (
        arith,
        get-set slug a v voices,
        get-set slug b v voices,
        text_eq_iff slug a,
        text_eq_iff slug b,
        o.apart a b x y,
        o.apart slug b old y known,
        o.apart a slug x old,
      );
      still = λ n nobody.
          let self : v.number ≢ n =
            nobody slug v (ground (arith, get-set slug slug v voices, text_eq_refl slug)) in
          let others =
            λ (a : Text) (w : Voice clock codecs) (h : get a voices ≡ some w) (e : w.number ≡ n).
              let elsewhere : text_eq slug a ≡ false = ground (arith, text_eq_iff slug a) in
              nobody a w (ground (arith, get-set slug a v voices)) e in
          ground (arith, now n, o.still n others);
    }

    -- A lane is opened with the next scheduler.
    pub IsOwned-open :
        get slug voices ≡ none
        → v.number ≡ created
        → v.scheduler.live_sources ≡ []
        → IsOwned (set slug v voices) (created + 1) playing
    IsOwned-open new next silent =
        let fresh : playing created ≡ [] =
          o.still created (λ a w h e. absurd (omega (arith, o.number a w h))) in
        record {
          unique = IsMap-set slug v voices o.unique;
          owned = λ a w h. ground (arith, get-set slug a v voices, o.owned a w);
          number = λ a w h. ground (arith, get-set slug a v voices, o.number a w);
          apart = λ a b x y h k e. ground (
            arith,
            get-set slug a v voices,
            get-set slug b v voices,
            text_eq_iff slug a,
            text_eq_iff slug b,
            o.apart a b x y,
            o.number a x,
            o.number b y,
          );
          still = λ n nobody. o.still n (λ a w h e.
              nobody a w (ground (arith, get-set slug a v voices, text_eq_iff slug a)) e);
        }

    pub IsOwned-delete :
        get slug voices ≡ some v
        → IsOwned (delete slug voices) created (silence clock codecs v playing)
    unfolding silence Scheduler.close
    IsOwned-delete known =
        let stopped : stop_all v.scheduler.live_sources (playing v.number) ≡ [] =
          rw (o.owned slug v known) (stop_all_self v.scheduler.live_sources) in
        record {
          unique = IsMap-delete slug voices o.unique;
          owned = λ a w h. ground (
            arith,
            get-delete slug a voices,
            text_eq_iff slug a,
            o.owned a w,
            o.apart slug a v w known,
          );
          number = λ a w h. ground (arith, get-delete slug a voices, o.number a w);
          apart = λ a b x y h k e.
              ground (arith, get-delete slug a voices, get-delete slug b voices, o.apart a b x y);
          still = λ n nobody. elim (Bool-cases (v.number == n)) [
            | inl mine ↦ rw mine stopped
            | inr other ↦ rw other (
                o.still n (λ a w h e.
                  nobody a w (ground (arith, get-delete slug a voices, text_eq_iff slug a)) e))
          ];
        }
