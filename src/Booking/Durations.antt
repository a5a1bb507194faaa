-- ===== src/Booking/Durations.antt =====
-- The durations of bookings (frontend/src/lib/booking-duration-label.ts and
-- frontend/src/app/mini-app/lib/booking-price-duration.ts).
use hunger_platform.Prelude.{
  ℕ, ◌+◌, ◌-◌, ◌*◌, ◌≡◌, ◌≤◌, ◌<◌, ◌⊎◌, refl, Option, none, some, Text, arith, ltb, inl, inr,
  Bool-cases,
}
use hunger_platform.Booking.{
  Service, Booking, mini_app_booking_duration_label, admin_booking_duration_label, rounded_minutes,
  minutes_between, from_times, effective_from, effective_booking_duration_minutes,
}

-- The two labels are one where the texts are.
labels_agree :
    (svc : Service) (minutes : ℕ → Text) (note : Text)
    → mini_app_booking_duration_label svc minutes note
      ≡ admin_booking_duration_label svc minutes note
unfolding mini_app_booking_duration_label admin_booking_duration_label
labels_agree svc minutes note = refl

module _ (get_time : Text → ℕ) where
  minutes_between-near :
      (starts ends : Text) (m : ℕ)
      → minutes_between get_time starts ends ≡ some m
      → (0 < m)
        × (m * 60000 ≤ (get_time ends - get_time starts) + 30000)
        × ((get_time ends - get_time starts) < m * 60000 + 30000)
  unfolding minutes_between rounded_minutes
  minutes_between-near starts ends m h = ground arith

  from_times-near :
      (o p : Option Text) (m : ℕ)
      → from_times get_time o p ≡ some m
      → (0 < m)
        × ((starts ends : Text) × (o ≡ some starts)
            × (p ≡ some ends)
            × (m * 60000 ≤ (get_time ends - get_time starts) + 30000)
            × ((get_time ends - get_time starts) < m * 60000 + 30000))
  unfolding from_times
  from_times-near none p m h = cc
  from_times-near (some starts) none m h = cc
  from_times-near (some starts) (some ends) m h =
      let between : minutes_between get_time starts ends ≡ some m = ground arith in
      let (positive, low, high) = minutes_between-near starts ends m between in
      (positive, (starts, ends, refl, refl, low, high))

  -- A duration that is shown is positive; it is the server's, or else it is the time between the start
  -- and the end, and off by half a minute at most.
  effective_near :
      (b : Booking) (m : ℕ)
      → effective_booking_duration_minutes get_time b ≡ some m
      → (0 < m)
        × ((b.duration_minutes ≡ some m)
            ⊎ ((starts ends : Text) × (b.starts_at ≡ some starts)
                × (b.ends_at ≡ some ends)
                × (m * 60000 ≤ (get_time ends - get_time starts) + 30000)
                × ((get_time ends - get_time starts) < m * 60000 + 30000)))
  unfolding effective_booking_duration_minutes effective_from
  effective_near b m h = go b.duration_minutes h
    where
      go :
          (o : Option ℕ)
          → effective_from get_time o b ≡ some m
          → (0 < m)
            × ((o ≡ some m)
                ⊎ ((starts ends : Text) × (b.starts_at ≡ some starts)
                    × (b.ends_at ≡ some ends)
                    × (m * 60000 ≤ (get_time ends - get_time starts) + 30000)
                    × ((get_time ends - get_time starts) < m * 60000 + 30000)))
      go none e =
          let (positive, near) = from_times-near b.starts_at b.ends_at m e in (positive, inr near)
      go (some n) e = elim (Bool-cases (ltb 0 n)) [
        | inl c ↦ (ground arith, inl (ground arith))
        | inr c ↦
            let (positive, near) = from_times-near b.starts_at b.ends_at m (ground arith) in
            (positive, inr near)
      ]
