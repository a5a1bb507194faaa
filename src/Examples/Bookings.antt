-- ===== src/Examples/Bookings.antt =====
-- Polls and durations at concrete inputs (frontend/src/hooks/useBookingNotifications.ts,
-- frontend/src/lib/booking-duration-label.ts and
-- frontend/src/app/mini-app/lib/booking-price-duration.ts).
use hunger_platform.Prelude.{ℕ, ◌*◌, Bool, Option, none, some, [], ◌∷◌, Text, codes, ltb, length}
use hunger_platform.Notifications.{BookingsResponse}
use hunger_platform.Booking.{Booking}

-- Dates that are longer are newer.
abbrev longer : Text → Text → Bool
longer a b = ltb (length b) (length a)

abbrev poll : Text → Option BookingsResponse
poll date = some (record {
  items = some (
      record {
        id = codes "b1";
        client_id = codes "c1";
        status = codes "pending";
        created_at = date;
      }
      ∷ []);
  total = some 1;
})

-- A clock that reads 20 minutes per character.
abbrev clock : Text → ℕ
clock t = length t * 1200000

abbrev some_booking : Booking
some_booking = record {
  duration_minutes = none;
  starts_at = some (codes "1");
  ends_at = some (codes "1234");
}
