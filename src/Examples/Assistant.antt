-- ===== src/Examples/Assistant.antt =====
-- The chat with the assistant at concrete inputs
-- (frontend/src/app/mini-app/hooks/useMiniAppChat.ts).
use hunger_platform.Prelude.{
  ◌≡◌, refl, true, false, Option, none, some, List, [], ◌∷◌, map, Text, codes, truthy, trim,
  trim_start, trim_end, keep_end, is_space, length, if◌then◌else◌,
}
use hunger_platform.Assistant.{AiApiResponse, Request, State, start}
use hunger_platform.Assistant.Events.{Event, typed, sent, pressed, answered, run, shows_buttons}
use hunger_platform.Assistant.Exchange.{run-turns}
use hunger_platform.Assistant.Transcript.{said, exchanges, transcript, none_blank, run-transcript}

abbrev some_reply : AiApiResponse
some_reply = record {
  reply = some (codes "When?");
  conversation_id = codes "c1";
  buttons = record { label = codes "10:00"; value = codes "slot1" } ∷ [];
  has_more_slots = false;
  all_slots = [];
  slot_buttons = [];
}

-- A question, its reply, a press on the reply's button, and a second press before the answer.
abbrev some_presses : List Event
some_presses =
    typed (codes "hello")
    ∷ sent
    ∷ answered (some some_reply)
    ∷ pressed (record { label = codes "10:00"; value = codes "slot1" })
    ∷ pressed (record { label = codes "10:00"; value = codes "slot1" })
    ∷ []

run-turns_example :
    (length (run some_presses start).waiting ≡ (if (run some_presses start).loading then 1 else 0))
    × ((run some_presses start).loading ≡ true
        → shows_buttons (run some_presses start).messages ≡ false)
run-turns_example = run-turns some_presses

abbrev two_texts : List (Text × Option AiApiResponse)
two_texts = (codes "hello", some some_reply) ∷ (codes "tomorrow", none) ∷ []

run-transcript_example : map said (run (exchanges two_texts) start).messages ≡ transcript two_texts
run-transcript_example =
    run-transcript two_texts
      (unfold none_blank truthy trim trim_start trim_end keep_end is_space in refl)

abbrev some_request : Request
some_request = record {
  message = codes "hello";
  conversation_id = [];
  image_base64 = none;
  image_mime_type = codes "image/jpeg";
  button = none;
}

abbrev waiting_state : State
waiting_state = record start { loading = true; waiting = some_request ∷ [] }
