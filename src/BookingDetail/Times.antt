-- ===== src/BookingDetail/Times.antt =====
-- The times of a booking that is changed
-- (frontend/src/app/(admin)/bookings/booking-detail-drawer.tsx).
use hunger_platform.Prelude.{
  ◌≡◌, refl, sym, ap, ◌∙◌, ◌⊎◌, inl, inr, Option, Option-cases, if-rule, ltb, ℕ, ◌+◌, ◌*◌, Bool,
  true, false, ◌&&◌, none, some, [], ◌∷◌, Text, truthy, leb, length, all, arith,
}
use hunger_platform.Wizard.Handlers.{filter}
use hunger_platform.Dashboard.Series.{slice}
use hunger_platform.Dates.{Zone, zoned_to_utc_iso}
use hunger_platform.BookingDetail.{
  BookingDetail, is_digit, slice_from, with_colon, format_time_input, is_hh_mm, duration_minutes,
  shown_duration, TimesPatch, save_duration_edit, kept_minutes, save_datetime_edit, patched,
}

-- How many digits were typed.
unfoldable pub digits : Text → ℕ
unfolding filter
digits value = length (filter is_digit value)

filter-all : (p : ℕ → Bool) (xs : Text) → all p (filter p xs) ≡ true
unfolding filter
filter-all p [] = refl
filter-all p (x ∷ xs) = let rest = filter-all p xs in ground arith

filter-same : (p : ℕ → Bool) (xs : Text) → all p xs ≡ true → filter p xs ≡ xs
unfolding filter
filter-same p [] h = refl
filter-same p (x ∷ xs) h =
    let rest = filter-same p xs (ground arith) in
    let first : p x ≡ true = ground arith in rw first (ap (λ ys. x ∷ ys) rest)

colon_digit : is_digit 58 ≡ false
unfolding is_digit
colon_digit = refl

filter-colon :
    (a b : ℕ) (ds : Text)
    → all is_digit (a ∷ b ∷ ds) ≡ true
    → filter is_digit (a ∷ b ∷ 58 ∷ ds) ≡ a ∷ b ∷ ds
unfolding filter
filter-colon a b ds h =
    let ha : is_digit a ≡ true = ground arith in
    let hb : is_digit b ≡ true = ground arith in
    rw ha (rw hb (rw colon_digit (ap (λ ys. a ∷ b ∷ ys) (filter-same is_digit ds (ground arith)))))

-- What is shown of the digits, of which there are any number.
with_colon-slice :
    (ds : Text)
    → all is_digit ds ≡ true
    → (format_time_input (with_colon (slice 4 ds)) ≡ with_colon (slice 4 ds))
      × (is_hh_mm (with_colon (slice 4 ds)) ≡ leb 4 (length ds))
unfolding with_colon slice slice_from is_hh_mm format_time_input
with_colon-slice [] h = (unfold filter in refl, refl)
with_colon-slice (a ∷ []) h =
    (ap (λ f. with_colon (slice 4 f)) (filter-same is_digit (a ∷ []) h), refl)
with_colon-slice (a ∷ b ∷ []) h =
    (ap (λ f. with_colon (slice 4 f)) (filter-same is_digit (a ∷ b ∷ []) h), refl)
with_colon-slice (a ∷ b ∷ c ∷ []) h =
    (ap (λ f. with_colon (slice 4 f)) (filter-colon a b (c ∷ []) h), refl)
with_colon-slice (a ∷ b ∷ c ∷ d ∷ ds) h =
    (ap (λ f. with_colon (slice 4 f)) (filter-colon a b (c ∷ d ∷ []) (ground arith)), ground arith)

-- Whatever is typed as a time: what the field then shows stays as it is when it is typed again, and it
-- has the shape of hours and minutes just where four digits or more were typed.
format_time_input-digits :
    (value : Text)
    → (format_time_input (format_time_input value) ≡ format_time_input value)
      × (is_hh_mm (format_time_input value) ≡ leb 4 (digits value))
unfolding digits format_time_input
format_time_input-digits value =
    with_colon-slice (filter is_digit value) (filter-all is_digit value)

kept_minutes-duration : (start mins : ℕ) → duration_minutes start (start + mins * 60000) ≡ mins
unfolding duration_minutes
kept_minutes-duration start mins = omega arith

elim_minutes :
    (d : BookingDetail) (s e : ℕ)
    → d.starts_at ≡ some s
    → d.ends_at ≡ some e
    → shown_duration d ≡ duration_minutes s e
unfolding shown_duration
elim_minutes d s e h k = rw h (rw k refl)

known_minutes :
    (d : BookingDetail) (s e : ℕ) → d.ends_at ≡ some e → kept_minutes s d ≡ duration_minutes s e
unfolding kept_minutes
known_minutes d s e h = rw h refl

truthy-long : (t : Text) → leb 10 (length t) ≡ true → truthy t ≡ true
unfolding truthy
truthy-long [] h = absurd (ground arith)
truthy-long (c ∷ t) h = refl

-- The change that is sent for a start at `o`, if that is a moment.
patch_at : Option ℕ → ℕ → Option TimesPatch
patch_at none mins = none
patch_at (some t) mins = some (some t, t + mins * 60000)

moved :
    (z : Zone) (date time : Text) (d : BookingDetail) (s : ℕ)
    → d.starts_at ≡ some s
    → is_hh_mm time ≡ true
    → leb 10 (length date) ≡ true
    → save_datetime_edit z date time d ≡ patch_at (zoned_to_utc_iso z date time) (kept_minutes s d)
unfolding save_datetime_edit patch_at
moved z date time d s h k l =
    let there = truthy-long date l in
    rw h (
      rw k (
        rw there (
          if-rule
            (λ (x : Option TimesPatch).
              x ≡ patch_at (zoned_to_utc_iso z date time) (kept_minutes s d))
            (ltb (length date) 10) _ _ (λ e. absurd (ground arith))
            (λ _. elim (Option-cases (zoned_to_utc_iso z date time)) [
              | inl e ↦ rw e refl
              | inr (t, e) ↦ rw e refl
            ]))))

-- Where a booking has a start and an end: a change of its date and time, to a date of ten characters or
-- more and a time of the shape of hours and minutes that are a moment in the salon's zone, is sent, starts the booking then and keeps the length
-- in minutes that the drawer shows, and where they are no moment nothing is sent; and a change of its
-- length to a number of minutes of one day is sent, keeps the start and is the length that the drawer
-- then shows.
pub shown_duration-edited :
    (z : Zone) (date time : Text) (mins s e : ℕ) (d : BookingDetail)
    → d.starts_at ≡ some s
    → d.ends_at ≡ some e
    → is_hh_mm time ≡ true
    → leb 10 (length date) ≡ true
    → (leb 1 mins && leb mins 1440) ≡ true
    → (((t : ℕ) × (p : TimesPatch) × (zoned_to_utc_iso z date time ≡ some t)
          × (save_datetime_edit z date time d ≡ some p)
          × ((patched p d).starts_at ≡ some t)
          × (shown_duration (patched p d) ≡ shown_duration d))
        ⊎ ((zoned_to_utc_iso z date time ≡ none) × (save_datetime_edit z date time d ≡ none)))
      × ((p : TimesPatch) × (save_duration_edit (some mins) d ≡ some p)
          × ((patched p d).starts_at ≡ some s)
          × (shown_duration (patched p d) ≡ mins))
unfolding patched save_duration_edit kept_minutes patch_at
shown_duration-edited z date time mins s e d h k t l m =
    let same_length : kept_minutes s d ≡ shown_duration d =
      known_minutes d s e k ∙ sym (elim_minutes d s e h k) in
    let sent = moved z date time d s h t l in
    (
      elim (Option-cases (zoned_to_utc_iso z date time)) [
        | inl no_moment ↦ inr (no_moment, sent ∙ rw no_moment refl)
        | inr (at, moment) ↦ inl (
          at,
          (some at, at + kept_minutes s d * 60000),
          moment,
          sent ∙ rw moment refl,
          refl,
          elim_minutes (patched (some at, at + kept_minutes s d * 60000) d) at
                (at + kept_minutes s d * 60000) refl refl
              ∙ kept_minutes-duration at (kept_minutes s d)
              ∙ same_length,
        )
      ],
      (
        (none, s + mins * 60000),
        rw h (ground arith),
        h,
        elim_minutes (patched (none, s + mins * 60000) d) s (s + mins * 60000) h refl
            ∙ kept_minutes-duration s mins,
      ),
    )
