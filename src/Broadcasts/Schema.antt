-- ===== src/Broadcasts/Schema.antt =====
-- The segments that the wizard of a broadcast builds against the backend's schema
-- (frontend/src/app/(admin)/broadcasts/new/broadcast-wizard.tsx, backend/app/schemas/segment.py).
use hunger_platform.Prelude.{
  ℤ, pos, negsuc, ◌≡◌, refl, ap, ℕ, suc, String, Bool, true, false, ◌&&◌, not, Option, none, some,
  List, [], ◌∷◌, Text, codes, same, str_eq, starts_with, ◌==◌, trim, truthy, if◌then◌else◌, lookup,
  leb, length, all, arith,
}
use hunger_platform.Broadcasts.{
  SegmentKind, all_clients, new_last_n, dormant, birthday_range, by_service, by_master, vip,
  regular, by_tag, by_lang, no_show, unknown, Options, Criteria, Value, truth, num, str, base,
  typed_as, lower, lower_char, build_criteria, can_preview,
}

-- What the schema asks of a field.
pub data FieldType : Type 0 where
  boolean integer uuid : FieldType
  at_least min_length : ℕ → FieldType
  between lengths : ℕ → ℕ → FieldType

-- `SegmentCriteria`
abbrev pub schema_fields : List (String × FieldType)
schema_fields =
    ("exclude_blacklist", boolean)
    ∷ ("exclude_marketing_opt_out", boolean)
    ∷ ("days", integer)
    ∷ ("days_ahead", integer)
    ∷ ("service_id", uuid)
    ∷ ("master_id", uuid)
    ∷ ("top_percent", between 1 100)
    ∷ ("min_bookings", at_least 1)
    ∷ ("tag", min_length 1)
    ∷ ("lang", lengths 2 16)
    ∷ ("min_count", at_least 1)
    ∷ []

-- The types, each with the field that `required_by_type` asks for.
abbrev pub required : List (String × Option String)
required =
    ("all", none)
    ∷ ("new_last_n", some "days")
    ∷ ("dormant", some "days")
    ∷ ("birthday_range", some "days_ahead")
    ∷ ("by_service", some "service_id")
    ∷ ("by_master", some "master_id")
    ∷ ("vip", some "top_percent")
    ∷ ("regular", some "min_bookings")
    ∷ ("by_tag", some "tag")
    ∷ ("by_lang", some "lang")
    ∷ ("no_show", none)
    ∷ []

unfoldable pub required_by : Text → List (String × Option String) → Option (Option String)
unfolding same
required_by t [] = none
required_by t ((name, key) ∷ rest) = if same t (codes name) then some key else required_by t rest

unfoldable pub from_to : ℕ → ℕ → ℤ → Bool
from_to low high (pos n) = leb low n && leb n high
from_to low high (negsuc n) = false

unfoldable pub not_below : ℕ → ℤ → Bool
not_below low (pos n) = leb low n
not_below low (negsuc n) = false

-- A value is one of the field; a text is a key of the database where `is_uuid` says so.
unfoldable pub fits : (Text → Bool) → FieldType → Value → Bool
unfolding not_below from_to
fits is_uuid boolean (truth b) = true
fits is_uuid integer (num z) = true
fits is_uuid uuid (str t) = is_uuid t
fits is_uuid (at_least n) (num z) = not_below n z
fits is_uuid (between a b) (num z) = from_to a b z
fits is_uuid (min_length n) (str t) = leb n (length t)
fits is_uuid (lengths a b) (str t) = leb a (length t) && leb (length t) b
fits is_uuid _ _ = false

unfoldable pub fits_schema : (Text → Bool) → String × Value → Bool
unfolding fits lookup
fits_schema is_uuid (key, v) = elim (lookup key schema_fields) [
  | none ↦ true
  | some f ↦ fits is_uuid f v
]

-- `v.split("-")[0]`
unfoldable pub before_dash : Text → Text
before_dash [] = []
before_dash (c ∷ t) = let rest = before_dash t in if c == 45 then [] else c ∷ rest

unfoldable pub norm_lang : Text → Text
unfolding before_dash lower
norm_lang v = lower (before_dash v)

-- The value of a field that a type requires counts: the language when it is normalized and the tag must
-- not be empty, and any other value is not `None`.
unfoldable pub is_given : String → Value → Bool
unfolding norm_lang truthy
is_given key (str t) =
    if str_eq key "lang" then truthy (norm_lang t) else if str_eq key "tag" then truthy t else true
is_given key (num z) = true
is_given key (truth b) = true

unfoldable pub has_required : Option String → Criteria → Bool
unfolding lookup is_given
has_required none c = true
has_required (some key) c = elim (lookup key c) [ none ↦ false | some v ↦ is_given key v ]

unfoldable pub complete : Option Value → Criteria → Bool
unfolding required_by has_required
complete (some (str t)) c = elim (required_by t required) [
  | none ↦ false
  | some key ↦ has_required key c
]
complete (some (num _)) c = false
complete (some (truth _)) c = false
complete none c = false

-- The schema takes the criteria.
unfoldable pub accepts : (Text → Bool) → Criteria → Bool
unfolding complete fits_schema
accepts is_uuid c = complete (lookup "type" c) c && all (fits_schema is_uuid) c

-- What the owner must have entered for each kind.
unfoldable pub filled : (Text → Bool) → SegmentKind → Options → Bool
unfolding not_below from_to lower
filled is_uuid by_service o = is_uuid o.service_id
filled is_uuid by_master o = is_uuid o.master_id
filled is_uuid vip o = from_to 1 100 o.top_percent
filled is_uuid regular o = not_below 1 o.min_bookings
filled is_uuid by_tag o = leb 1 (length (trim o.tag))
filled is_uuid by_lang o =
    leb 2 (length (trim o.lang))
    && leb (length (trim o.lang)) 16
    && not (starts_with (trim o.lang) (codes "-"))
filled is_uuid no_show o = not_below 1 o.min_no_show
filled is_uuid _ o = true

length-lower : (t : Text) → length (lower t) ≡ length t
unfolding lower
length-lower [] = refl
length-lower (c ∷ t) = ap suc (length-lower t)

-- A text of which nothing stands before the first dash is empty or starts with one.
truthy-norm_lang :
    (t : Text) → truthy (norm_lang (lower t)) ≡ (truthy t && not (starts_with t (codes "-")))
unfolding norm_lang before_dash lower lower_char truthy starts_with
truthy-norm_lang [] = refl
truthy-norm_lang (c ∷ t) = ground arith

truthy-lower : (t : Text) → truthy (lower t) ≡ truthy t
unfolding truthy lower
truthy-lower [] = refl
truthy-lower (c ∷ t) = refl

truthy-length : (t : Text) → truthy t ≡ leb 1 (length t)
unfolding truthy
truthy-length [] = refl
truthy-length (c ∷ t) = ground arith

pub accepts-build_criteria :
    (is_uuid : Text → Bool) (k : SegmentKind) (o : Options)
    → accepts is_uuid (build_criteria k o) ≡ filled is_uuid k o
unfolding accepts complete required_by has_required fits_schema fits filled build_criteria typed_as
    base same lookup is_given
accepts-build_criteria is_uuid all_clients o = refl
accepts-build_criteria is_uuid new_last_n o = refl
accepts-build_criteria is_uuid dormant o = refl
accepts-build_criteria is_uuid birthday_range o = refl
accepts-build_criteria is_uuid by_service o = ground arith
accepts-build_criteria is_uuid by_master o = ground arith
accepts-build_criteria is_uuid vip o = ground arith
accepts-build_criteria is_uuid regular o = ground arith
accepts-build_criteria is_uuid by_tag o = let some_text = truthy-length (trim o.tag) in ground arith
accepts-build_criteria is_uuid by_lang o =
    let long = length-lower (trim o.lang) in
    let given = truthy-norm_lang (trim o.lang) in
    let some_text = truthy-length (trim o.lang) in ground arith
accepts-build_criteria is_uuid no_show o = ground arith
accepts-build_criteria is_uuid (unknown t) o = refl

empty-length : (t : Text) → truthy t ≡ false → length t ≡ 0
unfolding truthy
empty-length [] h = refl
empty-length (c ∷ t) h = absurd (ground arith)

empty-key :
    (is_uuid : Text → Bool) (t : Text) → is_uuid [] ≡ false → truthy t ≡ false → is_uuid t ≡ false
unfolding truthy
empty-key is_uuid [] h n = h
empty-key is_uuid (c ∷ t) h n = absurd (ground arith)

blank-filled :
    (is_uuid : Text → Bool) (k : SegmentKind) (o : Options)
    → is_uuid [] ≡ false
    → can_preview k o ≡ false
    → filled is_uuid k o ≡ false
unfolding can_preview filled
blank-filled is_uuid all_clients o h n = absurd (ground arith)
blank-filled is_uuid new_last_n o h n = absurd (ground arith)
blank-filled is_uuid dormant o h n = absurd (ground arith)
blank-filled is_uuid birthday_range o h n = absurd (ground arith)
blank-filled is_uuid by_service o h n = empty-key is_uuid o.service_id h n
blank-filled is_uuid by_master o h n = empty-key is_uuid o.master_id h n
blank-filled is_uuid vip o h n = absurd (ground arith)
blank-filled is_uuid regular o h n = absurd (ground arith)
blank-filled is_uuid by_tag o h n = rw (empty-length (trim o.tag) n) refl
blank-filled is_uuid by_lang o h n = rw (empty-length (trim o.lang) n) refl
blank-filled is_uuid no_show o h n = absurd (ground arith)
blank-filled is_uuid (unknown t) o h n = absurd (ground arith)

-- Where the wizard does not even count the segment's clients, the schema refuses it, as the empty text
-- is no key of the database.
pub can_preview-accepts :
    (is_uuid : Text → Bool) (k : SegmentKind) (o : Options)
    → is_uuid [] ≡ false
    → can_preview k o ≡ false
    → accepts is_uuid (build_criteria k o) ≡ false
can_preview-accepts is_uuid k o h n =
    rw (accepts-build_criteria is_uuid k o) (blank-filled is_uuid k o h n)
