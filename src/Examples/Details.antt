-- ===== src/Examples/Details.antt =====
-- Formulas and the details of a booking at concrete inputs
-- (frontend/src/app/(admin)/formulas/formulas-page.tsx,
-- frontend/src/app/(admin)/bookings/booking-detail-drawer.tsx).
use hunger_platform.Prelude.{
  ◌≡◌, refl, ◌⊎◌, ℕ, Bool, true, false, ◌&&◌, if◌then◌else◌, Option, none, some, List, [], ◌∷◌,
  ◌++◌, Text, codes, truthy, trim, trim_start, trim_end, keep_end, is_space, ltb, leb, length,
  arith,
}
use hunger_platform.Wizard.Handlers.{filter}
use hunger_platform.Sorting.{is_sorted}
use hunger_platform.Dates.{Zone, zoned_to_utc_iso}
use hunger_platform.Formulas.{ComponentRow, is_complete, valid_comps, resolved_brand}
use hunger_platform.Formulas.Suggestions.{
  times, among_any, merge_sorted_unique_strings, merge_sorted_unique_strings-sorted,
}
use hunger_platform.Formulas.Drawer.{
  FormulaForm, FormulaBody, component_of, save_formula, with_rows, formula_request, finish,
}
use hunger_platform.Formulas.Rows.{RowsOf}
use hunger_platform.Formulas.Complete.{save_formula_complete, finish-course}
use hunger_platform.BookingDetail.{
  BookingDetail, TimesPatch, is_hh_mm, is_digit, save_datetime_edit, save_duration_edit,
  shown_duration, patched,
}
use hunger_platform.BookingDetail.Times.{shown_duration-edited}

-- The longer one later.
abbrev by_length : Text → Text → Bool
by_length s t = leb (length s) (length t)

by_length_total : (s t : Text) → by_length s t ≡ false → by_length t s ≡ true
by_length_total s t h = ground arith

abbrev some_groups : List (List Text)
some_groups = (codes "Wella" ∷ codes " L'Oreal " ∷ []) ∷ (codes "Wella" ∷ []) ∷ []

merge_sorted_unique_strings-sorted_example :
    (is_sorted by_length (merge_sorted_unique_strings by_length some_groups) ≡ true)
    × ((t : Text)
        → times t (merge_sorted_unique_strings by_length some_groups)
          ≡ (if truthy t && among_any t some_groups then 1 else 0))
merge_sorted_unique_strings-sorted_example =
    merge_sorted_unique_strings-sorted by_length some_groups by_length_total

abbrev uploads_short : Text → Option Text
uploads_short f = if leb (length f) 3 then some f else none

finish-course_example :
    (finish uploads_short (codes "a" ∷ []) (codes "u" ∷ []) ≡ record {
      photo_urls = (codes "u" ∷ []) ++ (codes "a" ∷ []);
      stored_urls = (codes "u" ∷ []) ++ (codes "a" ∷ []);
      attempted = codes "a" ∷ [];
      failed = false;
      pending = [];
    })
    × (finish uploads_short ((codes "a" ∷ []) ++ (codes "long" ∷ codes "b" ∷ [])) (codes "u" ∷ [])
        ≡ record {
          photo_urls = codes "u" ∷ [];
          attempted = (codes "a" ∷ []) ++ (codes "long" ∷ []);
          stored_urls = (codes "u" ∷ []) ++ (codes "a" ∷ []);
          failed = true;
          pending = [];
        })
finish-course_example =
    finish-course uploads_short (codes "a" ∷ []) (codes "long") (codes "b" ∷ []) (codes "a" ∷ [])
      (codes "u" ∷ []) refl refl

abbrev some_zone : Zone
some_zone = record {
  parse = λ date time. some 60000000000;
  parts = λ _. [];
  number = λ _. 0;
  hour = λ _. none;
  minute = λ _. none;
}

abbrev one_hour : BookingDetail
one_hour = record {
  starts_at = some 60000;
  ends_at = some 3660000;
  service_minutes = none;
  notes = none;
}

shown_duration-edited_example :
    (((t : ℕ) × (p : TimesPatch) × (zoned_to_utc_iso some_zone (codes "2025-01-02") (codes "10:30")
          ≡ some t)
        × (save_datetime_edit some_zone (codes "2025-01-02") (codes "10:30") one_hour ≡ some p)
        × ((patched p one_hour).starts_at ≡ some t)
        × (shown_duration (patched p one_hour) ≡ shown_duration one_hour))
      ⊎ ((zoned_to_utc_iso some_zone (codes "2025-01-02") (codes "10:30") ≡ none)
          × (save_datetime_edit some_zone (codes "2025-01-02") (codes "10:30") one_hour ≡ none)))
    × ((p : TimesPatch) × (save_duration_edit (some 90) one_hour ≡ some p)
        × ((patched p one_hour).starts_at ≡ some 60000)
        × (shown_duration (patched p one_hour) ≡ 90))
shown_duration-edited_example =
    shown_duration-edited some_zone (codes "2025-01-02") (codes "10:30") 90 60000 3660000 one_hour
      refl refl (unfold is_hh_mm is_digit in refl) refl refl

abbrev some_row : ComponentRow
some_row = record {
  id = codes "1";
  brand = codes "Wella";
  product = [];
  shade = codes "7/1";
  amount = codes "30";
  unit = codes "г";
}

abbrev empty_row : ComponentRow
empty_row = record {
  id = codes "2";
  brand = [];
  product = [];
  shade = [];
  amount = [];
  unit = codes "мл";
}

abbrev some_form : FormulaForm
some_form = record {
  client_id = codes "c1";
  service_name = [];
  applied_at = codes "2025-01-02";
  result_notes = [];
  exposure_minutes = [];
}

abbrev no_number : Text → Option ℕ
no_number _ = none

abbrev same_amount : Text → Text
same_amount t = t

abbrev at_midnight : Text → Option Text
at_midnight t = some (t ++ codes "T00:00:00.000Z")

abbrev some_body : FormulaBody Text
some_body = record {
  client_id = codes "c1";
  master_id = none;
  service_name = none;
  applied_at = codes "2025-01-02T00:00:00.000Z";
  result_notes = none;
  exposure_minutes = none;
  photo_urls = [];
  components =
      record {
        brand = codes "Wella";
        product = none;
        shade = codes "7/1";
        amount = codes "30";
        unit = codes "г";
      }
      ∷ [];
}

save_formula_complete_example :
    (truthy some_form.client_id ≡ true)
    × (at_midnight some_form.applied_at ≡ some some_body.applied_at)
    × (ltb 0 (length some_body.components) ≡ true)
    × RowsOf same_amount [] (empty_row ∷ some_row ∷ []) some_body.components
save_formula_complete_example =
    save_formula_complete same_amount no_number at_midnight [] some_form [] []
      (empty_row ∷ some_row ∷ []) some_body
      (unfold save_formula with_rows formula_request valid_comps is_complete resolved_brand
          component_of filter truthy trim trim_start trim_end keep_end is_space in
        refl)
