-- ===== src/Tools/Subscriber/Counts.antt =====
-- What tools/mock-subscriber/src/main.ts has counted after any messages.
use streammix.Common.{ℕ, ◌+◌, ◌≡◌, ◌∙◌, Bool, List, [], ◌∷◌, arith, if◌then◌else◌}
use streammix.Common.Assoc.{get, get-set}
use streammix.Common.Number.{Number}
use streammix.Common.Text.{Text, text_eq, text_eq_iff}
use streammix.Errors.{Result, ok, thrown}
use streammix.Header.{Frame, decode_frame}
use streammix.Json.{JsonText}
use streammix.Tools.Subscriber.{Counts, count_of, name_of, on_decoded, on_message, on_messages}

module _ (json : JsonText) (hex : Number → Text) (summarize : Bool) where
  -- 1 for a frame of that name, 0 for any other and for what is no frame.
  abbrev pub counts_for : Text → Result Frame → ℕ
  counts_for name (thrown e) = 0
  counts_for name (ok frame) = if text_eq (name_of json hex summarize frame) name then 1 else 0

  -- How many of the messages are frames of that name.
  abbrev pub occurrences : Text → List (List ℕ) → ℕ
  occurrences name [] = 0
  occurrences name (bytes ∷ rest) = counts_for name (decode_frame bytes) + occurrences name rest

  on_decoded-count_of :
      (name : Text) (decoded : Result Frame) (counts : Counts)
      → count_of (on_decoded json hex summarize decoded counts).0 name
        ≡ count_of counts name + counts_for name decoded
  on_decoded-count_of name (thrown e) counts = omega arith
  on_decoded-count_of name (ok frame) counts =
      let own = name_of json hex summarize frame in
      ground (arith, get-set own name (count_of counts own + 1) counts, text_eq_iff own name)

  on_messages_from :
      (name : Text) (messages : List (List ℕ)) (counts : Counts)
      → count_of (on_messages json hex summarize messages counts).0 name
        ≡ count_of counts name + occurrences name messages
  unfolding on_messages on_message
  on_messages_from name [] counts = omega arith
  on_messages_from name (bytes ∷ rest) counts =
      on_messages_from name rest (on_message json hex summarize bytes counts).0
      ∙ omega (arith, on_decoded-count_of name (decode_frame bytes) counts)

  -- The subscriber tool's count under a name is the number of messages that decode to a frame of that name:
  -- a message that does not decode changes nothing, wherever it falls.
  pub on_messages-count_of :
      (name : Text) (messages : List (List ℕ))
      → count_of (on_messages json hex summarize messages []).0 name ≡ occurrences name messages
  on_messages-count_of name messages =
      on_messages_from name messages [] ∙ (unfold get in omega arith)
