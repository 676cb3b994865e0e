-- ===== src/Examples/Playback.antt =====
-- The audio graph, the decoder's timestamps, the scheduler and the connection on concrete inputs.
use streammix.Common.{
  ℕ, ◌+◌, ◌-◌, ◌*◌, ◌≡◌, true, false, List, [], ◌∷◌, length, refl, some, arith, ltb, if◌then◌else◌,
}
use streammix.Common.Int.{pos, negsuc}
use streammix.Common.Number.{Number, num, nan, is_finite}
use streammix.Common.Text.{text}
use streammix.Common.{inr, none, ◌==◌, if◌then◌else◌, length}
use streammix.Audio.Decoder.Output.{AudioData, output, output_lem}
use streammix.Audio.Decoder.{
  new_lane, frame_duration_us, decode_all, elapsed, decode_all_rising, decode_restart, interleave,
  lefts, rights,
}
use streammix.Audio.Scheduler.{
  AudioClock, new_scheduler, enqueue, enqueue_all, IsPlayed, enqueue_all-IsPlayed,
}
use streammix.Audio.Graph.{build_graph}
use streammix.Audio.Graph.Silence.{IsSilent}
use streammix.Audio.Graph.Wiring.{IsWired}
use streammix.Audio.Graph.Routing.{
  adds, removes, sets_track_gain, sets_broadcast_gain, sets_offset_ms, Operation, perform_all,
  perform_all-build_graph,
}
use streammix.Relay.Connection.{
  Client, backoff, connect, on_open, on_close, on_timer, close, Step, start, next, opened, ended,
  fired,
}
use streammix.Relay.Connection.Single.{Stands, done, further, Reach-Stands, no_socket_after_close}

-- The doubles 2 and 0 are the thousandths that these inputs ask for.
abbrev thousandth : Number → Number
thousandth ms = if is_finite ms then num 2 else num 0

abbrev operations : List Operation
operations =
    adds (text "game")
    ∷ adds (text "mic")
    ∷ sets_track_gain (text "mic") nan
    ∷ removes (text "game")
    ∷ sets_broadcast_gain (num 7)
    ∷ sets_offset_ms (num 2000)
    ∷ adds (text "game")
    ∷ []

perform_all-build_graph_example :
    IsWired (perform_all thousandth operations build_graph)
    × IsSilent (perform_all thousandth operations build_graph)
perform_all-build_graph_example = perform_all-build_graph thousandth operations

decode_all_rising_example : decode_all new_lane (5 ∷ 6 ∷ 9 ∷ []) ≡ elapsed 5 (5 ∷ 6 ∷ 9 ∷ [])
decode_all_rising_example = decode_all_rising 5 (6 ∷ 9 ∷ []) (omega arith, (omega arith, tt))

decode_restart_example :
    decode_all (record { base_seq = some 5; last_seq = some 9 }) (0 ∷ (0 + 1) ∷ [])
    ≡ negsuc ((5 - 0) * frame_duration_us - 1) ∷ pos (1 * frame_duration_us) ∷ []
decode_restart_example = decode_restart 5 9 0 1 (omega arith) (omega arith)

abbrev samples : List (ℕ × ℕ)
samples = (1, 10) ∷ (2, 20) ∷ []

-- A decoder that throws for the second plane.
abbrev half_planar : AudioData ℕ
half_planar = record {
  number_of_frames = length samples;
  planar = λ ch. if ch == 0 then some (lefts samples) else none;
  interleaved = some (interleave samples);
}

output_lem_example : output half_planar 0 ≡ some (lefts samples ∷ rights samples ∷ [])
output_lem_example = output_lem half_planar 0 samples (refl, inr (inr refl, refl))

pub ltb_irrefl : (a : ℕ) → ltb a a ≡ false
ltb_irrefl a = ground arith

pub ltb_asym : (a b : ℕ) → ltb a b ≡ true → ltb b a ≡ false
ltb_asym a b h = ground arith

-- A clock in whole milliseconds.
abbrev pub clock : AudioClock
clock = record {
  Time = ℕ;
  zero_time = 0;
  before = ltb;
  plus_frame = λ t. t + 20;
  before_irrefl = ltb_irrefl;
  before_asym = ltb_asym;
}

abbrev arrivals : List ℕ
arrivals = 0 ∷ 3 ∷ 100 ∷ []

scheduler_test : enqueue_all clock arrivals (new_scheduler clock) ≡ 20 ∷ 40 ∷ 120 ∷ []
unfolding enqueue_all enqueue
scheduler_test = refl

enqueue_all-IsPlayed_example :
    IsPlayed clock 0 arrivals (enqueue_all clock arrivals (new_scheduler clock))
enqueue_all-IsPlayed_example = enqueue_all-IsPlayed clock arrivals (new_scheduler clock)

connection_opened : Step connect (on_open connect)
unfolding connect
connection_opened = opened connect 0 refl

connection_lost : Step (on_open connect) (on_close 0 (on_open connect))
unfolding connect on_open
connection_lost = ended (on_open connect) 0 refl

Reach-Stands_example : Stands (on_close 0 (on_open connect))
Reach-Stands_example = Reach-Stands (next (next start connection_opened) connection_lost)

abbrev waiting : Client
waiting = on_close 0 (on_open connect)

timer_fires : Step (close waiting) (on_timer [] (close waiting))
unfolding connect on_open on_close close backoff
timer_fires = fired (close waiting) (some 500) [] refl

no_socket_after_close_example :
    ((on_timer [] (close waiting)).closed ≡ true)
    × ((on_timer [] (close waiting)).created ≡ waiting.created)
no_socket_after_close_example = no_socket_after_close waiting (further done timer_fires)
