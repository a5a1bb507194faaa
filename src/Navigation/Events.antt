-- ===== src/Navigation/Events.antt =====
-- What can happen in the settings of the menu
-- (frontend/src/app/(admin)/settings/settings-section.tsx).
use hunger_platform.Prelude.{
  ℕ, ◌-◌, ◌+◌, Bool, not, Option, none, some, List, [], ◌∷◌, ◌++◌, Text, same, if◌then◌else◌, ◌==◌,
  length,
}
use hunger_platform.Wizard.Handlers.{nth, filter}
use hunger_platform.Referral.{mem}
use hunger_platform.Navigation.{initial_order, initial_hidden}
use hunger_platform.Navigation.Lists.{move, index_of}

pub record State : Type 0 where
  pub order : List Text
  pub hidden : List Text
  pub dragging_href : Option Text
  -- What was handed to `onSave`, the latest first.
  pub saved : List (List Text × List Text)

-- The stored order and the stored addresses that are hidden.
pub record Integrations : Type 0 where
  pub admin_nav_order : List Text
  pub admin_nav_hidden : List Text

unfoldable pub start : List Text → Integrations → State
unfolding initial_order initial_hidden
start nav i = record {
  order = initial_order nav i.admin_nav_order;
  hidden = initial_hidden nav i.admin_nav_hidden;
  dragging_href = none;
  saved = [];
}

-- The index of what is dragged; `splice` counts -1 from the end.
unfoldable pub drag_index : Text → List Text → ℕ
unfolding mem index_of
drag_index href order = if mem href order then index_of href order else length order - 1

-- `xs.filter((x) => x !== href)`
unfoldable pub left_without : Text → List Text → List Text
unfolding filter same
left_without href xs = filter (λ x. not (same x href)) xs

-- `xs.includes(href) ? xs : [...xs, href]`
unfoldable pub with_end : Text → List Text → List Text
unfolding mem
with_end href xs = if mem href xs then xs else xs ++ (href ∷ [])

unfoldable pub dropped_on : Option Text → Text → State → State
unfolding drag_index move index_of same
dropped_on none href s = s
dropped_on (some from) href s = if same from href then s else record s {
  order = move (drag_index from s.order) (index_of href s.order) s.order;
  dragging_href = none;
}

unfoldable pub drag_start : Option Text → State → State
drag_start none s = s
drag_start (some href) s = record s { dragging_href = some href }

unfoldable pub drop : Option Text → State → State
unfolding dropped_on
drop none s = s
drop (some href) s = dropped_on s.dragging_href href s

unfoldable pub take_off : Option Text → State → State
unfolding left_without with_end
take_off none s = s
take_off (some href) s = record s {
  order = left_without href s.order;
  hidden = with_end href s.hidden;
}

unfoldable pub restore : Option Text → State → State
unfolding left_without with_end
restore none s = s
restore (some href) s = record s {
  hidden = left_without href s.hidden;
  order = with_end href s.order;
}

-- A control of a row is named by the row's place; `saving` disables the buttons below.
pub data Event : Type 0 where
  drag_started dropped moved_up moved_down removed restored : ℕ → Event
  drag_ended : Event
  reset cancelled save_clicked : Bool → Event

unfoldable pub step : List Text → Integrations → Event → State → State
unfolding drag_start drop take_off restore move nth initial_order initial_hidden
step nav i (drag_started n) s = drag_start (nth n s.order) s
step nav i (dropped n) s = drop (nth n s.order) s
step nav i (moved_up n) s = record s { order = if n == 0 then s.order else move n (n - 1) s.order }
step nav i (moved_down n) s = record s {
  order = if n + 1 == length s.order then s.order else move n (n + 1) s.order;
}
step nav i (removed n) s = take_off (nth n s.order) s
step nav i (restored n) s = restore (nth n s.hidden) s
step nav i drag_ended s = record s { dragging_href = none }
step nav i (reset saving) s = record s {
  order = if saving then s.order else initial_order nav i.admin_nav_order;
}
step nav i (cancelled saving) s = record s {
  order = if saving then s.order else initial_order nav i.admin_nav_order;
  hidden = if saving then s.hidden else initial_hidden nav i.admin_nav_hidden;
}
step nav i (save_clicked saving) s = record s {
  saved = if saving then s.saved else (s.order, s.hidden) ∷ s.saved;
}

unfoldable pub run : List Text → Integrations → List Event → State → State
unfolding step
run nav i [] s = s
run nav i (e ∷ es) s = run nav i es (step nav i e s)
