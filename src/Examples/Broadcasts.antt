-- ===== src/Examples/Broadcasts.antt =====
-- The broadcasts at concrete inputs
-- (frontend/src/app/(admin)/broadcasts/new/broadcast-wizard.tsx).
use hunger_platform.Prelude.{
  ◌≡◌, refl, ◌⊎◌, false, Option, none, some, List, [], ◌∷◌, Text, codes, truthy, trim, trim_start,
  trim_end,
}
use hunger_platform.Broadcasts.{by_tag, en, url, can_preview, build_criteria, Options}
use hunger_platform.Broadcasts.Loading.{State, start, default_options, loaded, body_of}
use hunger_platform.Broadcasts.Form.{title_typed, message_typed}
use hunger_platform.Broadcasts.Events.{launch}
use hunger_platform.Broadcasts.Schema.{accepts, can_preview-accepts}
use hunger_platform.Broadcasts.Restored.{body_of-loaded}
use hunger_platform.Broadcasts.Kept.{last_saved}
use hunger_platform.Broadcasts.Saved.{Act, fills, goes_on, acts, launch-last_saved}

abbrev some_options : Options
some_options = record default_options { tag = codes " loyal " }

can_preview-accepts_example : accepts truthy (build_criteria by_tag default_options) ≡ false
can_preview-accepts_example =
    can_preview-accepts truthy by_tag default_options (unfold truthy in refl)
      (unfold can_preview truthy trim trim_start trim_end in refl)

abbrev tagged : State
tagged = record (start []) {
  title = codes " Spring ";
  segment_kind = by_tag;
  options = some_options;
  button_rows =
      (record { text = codes "Book"; url = codes "https://a.example"; type = url } ∷ []) ∷ [];
}

body_of-loaded_example :
    body_of (loaded false (body_of tagged) (start (codes "b1")))
    ≡ record (body_of tagged) { segment = build_criteria by_tag default_options }
unfolding start
body_of-loaded_example = body_of-loaded tagged (start (codes "b1")) refl

abbrev some_acts : List Act
some_acts =
    fills (title_typed (codes "Spring"))
    ∷ goes_on none
    ∷ fills (message_typed en (codes "Hello"))
    ∷ goes_on (some (codes "b1"))
    ∷ goes_on none
    ∷ []

abbrev no_clock : Text → Option Text
no_clock _ = none

launch-last_saved_example :
    ((launch no_clock (acts no_clock some_acts (start []))).sent
      ≡ (acts no_clock some_acts (start [])).sent)
    ⊎ ((moment : Option Text) × ((launch no_clock (acts no_clock some_acts (start []))).sent
          ≡ ((acts no_clock some_acts (start [])).broadcast_id, moment)
            ∷ (acts no_clock some_acts (start [])).sent)
        × (last_saved
              (acts no_clock some_acts (start [])).broadcast_id
              (acts no_clock some_acts (start [])).saved
            ≡ some (body_of (acts no_clock some_acts (start [])))))
unfolding start
launch-last_saved_example = launch-last_saved no_clock some_acts (start []) refl refl refl refl
