-- ===== src/Notifications.antt =====
-- The poll for new bookings (`useBookingNotifications` of
-- frontend/src/hooks/useBookingNotifications.ts). What the hook keeps is one record; the sound and the
-- toast come together and are counted. `newer a b`, for `new Date(a) > new Date(b)`, is a parameter.
pub mod Polls
use hunger_platform.Prelude.{
  ℕ, ◌+◌, Bool, true, false, not, Option, none, some, List, [], ◌∷◌, Text, if◌then◌else◌,
}

pub record BookingItem : Type 0 where
  pub id : Text
  pub client_id : Text
  pub status : Text
  pub created_at : Text

-- What a request gives, `none` for an exception: the items and the total, each perhaps missing.
pub record BookingsResponse : Type 0 where
  pub items : Option (List BookingItem)
  pub total : Option ℕ

pub record Hook : Type 0 where
  pub has_new : Bool
  pub pending_count : ℕ
  pub last_seen_created_at : Option Text
  pub initialized : Bool
  pub active : Bool
  pub sounds : ℕ

unfoldable pub start : Hook
start = record {
  has_new = false;
  pending_count = 0;
  last_seen_created_at = none;
  initialized = false;
  active = true;
  sounds = 0;
}

abbrev pub items_or_empty : Option (List BookingItem) → List BookingItem
items_or_empty none = []
items_or_empty (some items) = items

abbrev pub total_or_zero : Option ℕ → ℕ
total_or_zero none = 0
total_or_zero (some n) = n

-- `setHasNew(true)`, the sound and the toast.
unfoldable pub announce : Text → Hook → Hook
announce latest s = record s {
  last_seen_created_at = some latest;
  has_new = true;
  sounds = s.sounds + 1;
}

module _ (newer : Text → Text → Bool) where
  -- The test that follows the initialisation, by `lastSeenCreatedAt.current`.
  unfoldable pub compare_latest : Text → Option Text → Hook → Hook
  unfolding announce
  compare_latest latest none s = announce latest s
  compare_latest latest (some seen) s = if newer latest seen then announce latest s else s

  -- What is done with the items.
  unfoldable pub see : List BookingItem → Hook → Hook
  unfolding compare_latest
  see [] s = s
  see (latest ∷ _) s =
      if not s.initialized
      then record s { last_seen_created_at = some latest.created_at; initialized = true }
      else compare_latest latest.created_at s.last_seen_created_at s

  -- `check`, with the reply of its request.
  unfoldable pub check : Option BookingsResponse → Hook → Hook
  unfolding see
  check none s = s
  check (some reply) s =
      if not s.active
      then s
      else see (items_or_empty reply.items) (record s { pending_count = total_or_zero reply.total })

  unfoldable pub run : List (Option BookingsResponse) → Hook → Hook
  unfolding check
  run [] s = s
  run (r ∷ rs) s = run rs (check r s)

-- `clearNew`
unfoldable pub clear_new : Hook → Hook
clear_new s = record s { has_new = false }

-- The end of the effect.
unfoldable pub stop : Hook → Hook
stop s = record s { active = false }
