-- ===== src/Broadcasts/Restored.antt =====
-- That the wizard of a broadcast restores what was saved, but for the parameters of the segment
-- (frontend/src/app/(admin)/broadcasts/new/broadcast-wizard.tsx).
use hunger_platform.Prelude.{
  ◌≡◌, refl, ap, ◌∙◌, true, false, Option, none, some, List, [], ◌∷◌, map, Text, codes, trim,
  trim_start, trim_end, keep_end, is_space, trim_idem, same, truthy, if◌then◌else◌, lookup, arith,
  inl, inr, Bool-cases,
}
use hunger_platform.Wizard.Handlers.{filter}
use hunger_platform.Broadcasts.{
  Messages, SegmentKind, all_clients, new_last_n, dormant, birthday_range, by_service, by_master,
  vip, regular, by_tag, by_lang, no_show, unknown, Options, typed_as, build_criteria, LinkType, url,
  mini_app, Button, SavedButton, BroadcastBody, type_name, has_link, saved_button, saved_row,
  has_buttons, payload_rows, rows_or_null, inline_payload,
}
use hunger_platform.Broadcasts.Loading.{
  State, text_or_else, or_null, text_or, entries, body_of, kind_of, kind_or, messages_of, has_url,
  loaded_button, loaded_row, loaded_rows, loaded,
}

type-loaded :
    (t : LinkType)
    → type_name (if same (type_name t) (codes "mini_app") then mini_app else url) ≡ type_name t
unfolding type_name same
type-loaded url = refl
type-loaded mini_app = refl

saved_button-loaded : (b : Button) → saved_button (loaded_button (saved_button b)) ≡ saved_button b
unfolding saved_button loaded_button text_or
saved_button-loaded b = rw (type-loaded b.type, trim_idem b.text, trim_idem b.url) refl

module _ (b : Button) (e : has_link b ≡ true) where
  saved_row-link : (row : List Button) → saved_row (b ∷ row) ≡ saved_button b ∷ saved_row row
  unfolding saved_row filter
  saved_row-link row = rw e refl

  has_url-saved_button : has_url (saved_button b) ≡ true
  unfolding has_url saved_button text_or has_link
  has_url-saved_button = ground arith

  has_link-loaded : has_link (loaded_button (saved_button b)) ≡ true
  unfolding has_link loaded_button saved_button text_or
  has_link-loaded = rw (trim_idem b.text, trim_idem b.url) e

loaded_row-link :
    (c : SavedButton) (row : List SavedButton)
    → has_url c ≡ true
    → loaded_row (c ∷ row) ≡ loaded_button c ∷ loaded_row row
unfolding loaded_row filter
loaded_row-link c row e = rw e refl

saved_row-skip :
    (b : Button) (row : List Button) → has_link b ≡ false → saved_row (b ∷ row) ≡ saved_row row
unfolding saved_row filter
saved_row-skip b row e = rw e refl

-- A row that was saved is saved as it is.
saved_row-loaded : (row : List Button) → saved_row (loaded_row (saved_row row)) ≡ saved_row row
saved_row-loaded [] = unfold saved_row loaded_row filter in refl
saved_row-loaded (b ∷ row) = elim (Bool-cases (has_link b)) [
  | inl e ↦ rw (saved_row-link b e row) (
      rw (loaded_row-link (saved_button b) (saved_row row) (has_url-saved_button b e)) (
        rw (saved_row-link _ (has_link-loaded b e) (loaded_row (saved_row row)))
          (rw (saved_button-loaded b) (ap (λ r. saved_button b ∷ r) (saved_row-loaded row)))))
  | inr e ↦ rw (saved_row-skip b row e) (saved_row-loaded row)
]

messages_of-entries : (m : Messages) → messages_of (entries m) ≡ m
unfolding messages_of entries text_or lookup
messages_of-entries m = refl

criteria-loaded :
    (k : SegmentKind) (j : SegmentKind) (o p : Options)
    → build_criteria (kind_or (lookup "type" (build_criteria k o)) j) p ≡ build_criteria k p
unfolding build_criteria kind_or kind_of typed_as lookup truthy same
criteria-loaded all_clients j o p = refl
criteria-loaded new_last_n j o p = refl
criteria-loaded dormant j o p = refl
criteria-loaded birthday_range j o p = refl
criteria-loaded by_service j o p = refl
criteria-loaded by_master j o p = refl
criteria-loaded vip j o p = refl
criteria-loaded regular j o p = refl
criteria-loaded by_tag j o p = refl
criteria-loaded by_lang j o p = refl
criteria-loaded no_show j o p = refl
criteria-loaded (unknown t) j o p = refl

text_or_else-trim :
    (t : Text)
    → text_or_else (trim (text_or_else (trim t) (codes "Broadcast"))) (codes "Broadcast")
      ≡ text_or_else (trim t) (codes "Broadcast")
unfolding text_or_else
text_or_else-trim t = elim (Bool-cases (truthy (trim t))) [
  | inl e ↦ rw e (rw (trim_idem t) (rw e refl))
  | inr e ↦ rw e (unfold trim trim_start trim_end keep_end is_space truthy in refl)
]

payload_rows-yes :
    (row : List Button) (rows : List (List Button))
    → has_buttons (saved_row row) ≡ true
    → payload_rows (row ∷ rows) ≡ saved_row row ∷ payload_rows rows
unfolding payload_rows filter
payload_rows-yes row rows e = rw e refl

payload_rows-skip :
    (row : List Button) (rows : List (List Button))
    → has_buttons (saved_row row) ≡ false
    → payload_rows (row ∷ rows) ≡ payload_rows rows
unfolding payload_rows filter
payload_rows-skip row rows e = rw e refl

payload_rows-loaded :
    (rows : List (List Button))
    → payload_rows (map loaded_row (payload_rows rows)) ≡ payload_rows rows
payload_rows-loaded [] = unfold payload_rows filter in refl
payload_rows-loaded (row ∷ rows) = elim (Bool-cases (has_buttons (saved_row row))) [
  | inl e ↦ rw (payload_rows-yes row rows e) (
      payload_rows-yes (loaded_row (saved_row row)) (map loaded_row (payload_rows rows))
        (rw (saved_row-loaded row) e)
      ∙ (rw (saved_row-loaded row) (ap (λ r. saved_row row ∷ r) (payload_rows-loaded rows))))
  | inr e ↦ rw (payload_rows-skip row rows e) (payload_rows-loaded rows)
]

loaded_rows-null :
    (rows : List (List SavedButton)) → loaded_rows (rows_or_null rows) ≡ map loaded_row rows
unfolding loaded_rows rows_or_null
loaded_rows-null [] = refl
loaded_rows-null (r ∷ rows) = refl

inline_payload-loaded :
    (rows : List (List Button))
    → inline_payload (loaded_rows (inline_payload rows)) ≡ inline_payload rows
unfolding inline_payload
inline_payload-loaded rows =
    rw (loaded_rows-null (payload_rows rows)) (ap rows_or_null (payload_rows-loaded rows))

truthy-empty : (t : Text) → truthy t ≡ false → t ≡ []
unfolding truthy
truthy-empty [] h = refl
truthy-empty (c ∷ t) h = cc

or_else_idem : (s t : Text) → text_or_else (text_or_else s t) t ≡ text_or_else s t
unfolding text_or_else truthy
or_else_idem [] [] = refl
or_else_idem [] (c ∷ t) = refl
or_else_idem (c ∷ s) t = refl

trim-null : (t : Text) → trim (text_or (or_null (trim t)) []) ≡ trim t
unfolding text_or or_null
trim-null t = elim (Bool-cases (truthy (trim t))) [
  | inl e ↦ rw e (trim_idem t)
  | inr e ↦ rw e (rw (truthy-empty (trim t) e) (unfold trim trim_start trim_end in refl))
]

-- What is saved of the media.
media_type_of : Text → Text → Option Text
media_type_of address kind =
    if truthy (trim address) then some (text_or_else kind (codes "photo")) else none

media_type-loaded :
    (address kind : Text)
    → media_type_of
        (text_or (or_null (trim address)) [])
        (text_or (media_type_of address kind) (codes "photo"))
      ≡ media_type_of address kind
unfolding media_type_of text_or
media_type-loaded address kind = rw (trim-null address) (elim (Bool-cases (truthy (trim address))) [
  | inl e ↦ rw e (ap (λ k. some k) (or_else_idem kind (codes "photo")))
  | inr e ↦ rw e refl
])

bodies :
    (x y : BroadcastBody)
    → x.title ≡ y.title
    → x.message_i18n ≡ y.message_i18n
    → x.segment ≡ y.segment
    → x.media_url ≡ y.media_url
    → x.media_type ≡ y.media_type
    → x.inline_keyboard ≡ y.inline_keyboard
    → x ≡ y
bodies x y a b c d e f i = record {
  title = a i;
  message_i18n = b i;
  segment = c i;
  media_url = d i;
  media_type = e i;
  inline_keyboard = f i;
}

-- Where a broadcast is opened again that was saved, and the backend returns what it was given, a save
-- at once is of the same title, messages, media and buttons, and of the same kind of segment, whose
-- parameters and exclusions are those that the form opens with and not those that were saved.
pub body_of-loaded :
    (s t : State)
    → t.initialized ≡ false
    → body_of (loaded false (body_of s) t)
      ≡ record (body_of s) { segment = build_criteria s.segment_kind t.options }
unfolding body_of loaded media_type_of truthy
body_of-loaded s t h = rw h (
    bodies _ _ (text_or_else-trim s.title) (ap entries (messages_of-entries s.msg))
      (criteria-loaded s.segment_kind t.segment_kind s.options t.options)
      (ap or_null (trim-null s.media_url)) (media_type-loaded s.media_url s.media_type)
      (inline_payload-loaded s.button_rows))
