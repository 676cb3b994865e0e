-- ===== src/Messages/Stats.antt =====
-- shared/ts/src/messages.ts: STATS.
use streammix.Common.{ℕ, ◌≤◌, ◌≡◌, subst, ◌∙◌, true, false, List, length, arith}
use streammix.Common.Text.{text}
use streammix.Common.Number.{Number, num, num_lt, is_finite}
use streammix.Errors.{Result, ok, ◌>>=◌, >>=-eq-ok, ok-injective}
use streammix.Json.{number, object, Fields, end, field, JsonText, IsReadBack}
use streammix.Messages.{
  encode_json, decode_json, num_field, num_field_sound, decode_json-encode_json, max_json_bytes,
}

pub record StatsPayload : Type 0 where
  pub uptime_s : Number
  pub packets_sent : Number
  pub subscribers : Number
  pub tracks_active : Number

abbrev pub stats_fields : StatsPayload → Fields
stats_fields p = field (text "uptime_s") (number p.uptime_s) (
    field (text "packets_sent") (number p.packets_sent) (
      field (text "subscribers") (number p.subscribers)
        (field (text "tracks_active") (number p.tracks_active) end)))

unfoldable pub encode_stats : JsonText → StatsPayload → Result (List ℕ)
encode_stats json p = encode_json json (object (stats_fields p))

unfoldable pub decode_stats : JsonText → List ℕ → Result StatsPayload
decode_stats json buf = do
  obj ← decode_json json buf
  uptime_s ← num_field obj "uptime_s"
  packets_sent ← num_field obj "packets_sent"
  subscribers ← num_field obj "subscribers"
  tracks_active ← num_field obj "tracks_active"
  ok (record {
    uptime_s = uptime_s;
    packets_sent = packets_sent;
    subscribers = subscribers;
    tracks_active = tracks_active;
  })

-- Finite and not below zero.
abbrev pub IsCount : Number → Type 0
IsCount x = (is_finite x ≡ true) × (num_lt x (num 0) ≡ false)

pub record AreCounts (p : StatsPayload) : Type 0 where
  pub uptime : IsCount p.uptime_s
  pub packets : IsCount p.packets_sent
  pub subscribed : IsCount p.subscribers
  pub active : IsCount p.tracks_active

-- The four numbers that `decodeStats` returns are finite and not negative.
decode_stats_sound :
    (json : JsonText) (buf : List ℕ) (p : StatsPayload) → decode_stats json buf ≡ ok p → AreCounts p
unfolding decode_stats
decode_stats_sound json buf p h =
    let (obj, _, h1) = >>=-eq-ok (decode_json json buf) _ h in
    let (a, got_a, h2) = >>=-eq-ok (num_field obj "uptime_s") _ h1 in
    let (b, got_b, h3) = >>=-eq-ok (num_field obj "packets_sent") _ h2 in
    let (c, got_c, h4) = >>=-eq-ok (num_field obj "subscribers") _ h3 in
    let (d, got_d, h5) = >>=-eq-ok (num_field obj "tracks_active") _ h4 in
    let (_, a0, a1) = num_field_sound obj "uptime_s" got_a in
    let (_, b0, b1) = num_field_sound obj "packets_sent" got_b in
    let (_, c0, c1) = num_field_sound obj "subscribers" got_c in
    let (_, d0, d1) = num_field_sound obj "tracks_active" got_d in
    subst AreCounts (ok-injective h5)
      (record { uptime = (a0, a1); packets = (b0, b1); subscribed = (c0, c1); active = (d0, d1) })

-- Four finite numbers that are not negative are read back, if their JSON text gives the object back
-- and fits into 4096 bytes.
pub decode_stats-encode_stats :
    (json : JsonText) (p : StatsPayload)
    → AreCounts p
    → IsReadBack json (object (stats_fields p))
    → length (json.stringify (object (stats_fields p))) ≤ max_json_bytes
    → (encode_stats json p >>= decode_stats json) ≡ ok p
unfolding decode_stats encode_stats num_field
decode_stats-encode_stats json p v back fits =
    decode_json-encode_json json (stats_fields p) _ back fits ∙ ground arith
