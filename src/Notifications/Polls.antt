-- ===== src/Notifications/Polls.antt =====
-- What is announced over many polls (frontend/src/hooks/useBookingNotifications.ts).
use hunger_platform.Prelude.{
  ℕ, suc, ◌≡◌, refl, Bool, true, false, Option, none, some, List, [], ◌∷◌, Text,
}
use hunger_platform.Notifications.{BookingItem, BookingsResponse, Hook, items_or_empty, check}

-- The dates of the latest bookings that the polls brought.
latest_of : List BookingItem → List Text → List Text
latest_of [] ds = ds
latest_of (b ∷ _) ds = b.created_at ∷ ds

unfoldable pub dates : List (Option BookingsResponse) → List Text
unfolding latest_of
dates [] = []
dates (none ∷ rs) = dates rs
dates (some r ∷ rs) = latest_of (items_or_empty r.items) (dates rs)

module _ (newer : Text → Text → Bool) where
  -- How many dates are newer than all that count before them, the first being what they start from.
  unfoldable pub records_after : Text → List Text → ℕ
  records_after seen [] = 0
  records_after seen (d ∷ ds) = elim (newer d seen) [
    | true ↦ suc (records_after d ds)
    | false ↦ records_after seen ds
  ]

  unfoldable pub records : List Text → ℕ
  unfolding records_after
  records [] = 0
  records (d ∷ ds) = records_after d ds

  stopped : (r : Option BookingsResponse) (s : Hook) → s.active ≡ false → check newer r s ≡ s
  unfolding check
  stopped none s a = refl
  stopped (some r) s a = rw a refl
