-- ===== src/Referral/Apply.antt =====
-- Trying a code for a user who is onboarded (frontend/src/app/mini-app/lib/referral.ts).
use hunger_platform.Prelude.{
  ℕ, ◌≡◌, refl, ◌⊎◌, inl, inr, true, false, ◌||◌, Option, none, some, [], ◌∷◌, Text, truthy,
  if◌then◌else◌, arith, Bool-cases, same, same_refl, lookup-remove,
}
use hunger_platform.Session.{is_ok}
use hunger_platform.Storage.{Storage, get_item, remove_item, attempt}
use hunger_platform.Referral.{
  Window, Marks, referral_storage_key, read_referral_from_url, read_telegram_start_param_referral,
  read_stored_referral_code, stored_or_empty, or_text, captured_code, capture_referral_code,
  referral_apply_session_key, mem, is_marked, mark, after_patch, after_reply, try_apply_code,
  try_apply_referral_for_onboarded_user,
}

-- The marks can be kept.
pub record IsRecording (m : Marks) : Type 0 where
  pub is_open : m.accessible ≡ true
  pub roomy : m.has_room ≡ true

capture_parts :
    (w : Window)
    → ((capture_referral_code w).0 ≡ captured_code w)
      × ((capture_referral_code w).1.ref ≡ w.ref)
      × ((capture_referral_code w).1.start_param ≡ w.start_param)
      × ((capture_referral_code w).1.session ≡ w.session)
unfolding capture_referral_code
capture_parts w = ground arith

-- The code on file.
stored_code : Storage → Text
stored_code s = stored_or_empty (get_item referral_storage_key s)

removed : Storage → Storage
removed s = attempt (remove_item referral_storage_key s) s

stored_removed :
    (s : Storage) → (stored_code (removed s) ≡ stored_code s) ⊎ (stored_code (removed s) ≡ [])
unfolding stored_code removed remove_item attempt get_item
stored_removed s = ground (arith, lookup-remove referral_storage_key referral_storage_key s.items)

-- The code that is captured, by the parts of the window that count.
code_of : Text → Text → Storage → Text
code_of url tg s = or_text url (or_text tg (stored_code s))

captured-code_of :
    (w : Window)
    → captured_code w
      ≡ code_of (read_referral_from_url w) (read_telegram_start_param_referral w) w.local
unfolding captured_code code_of stored_code read_stored_referral_code
captured-code_of w = refl

-- With the same sources, after the storage was left alone or the code removed, the same code is
-- captured, or none.
code_again :
    (url tg : Text) (l l' s : Storage)
    → ((truthy url || truthy tg) ≡ false → l' ≡ l)
    → (s ≡ l') ⊎ (s ≡ removed l')
    → (code_of url tg s ≡ code_of url tg l) ⊎ (code_of url tg s ≡ [])
unfolding code_of or_text
code_again url tg l l' s same h = elim (Bool-cases (truthy url || truthy tg)) [
  | inl t ↦ inl (ground arith)
  | inr f ↦ ground (arith, same f, stored_removed l)
]

capture_local :
    (w : Window)
    → (truthy (read_referral_from_url w) || truthy (read_telegram_start_param_referral w)) ≡ false
    → (capture_referral_code w).1.local ≡ w.local
unfolding capture_referral_code
capture_local w h = rw h refl

capture_sources :
    (w : Window)
    → (read_referral_from_url (capture_referral_code w).1 ≡ read_referral_from_url w)
      × (read_telegram_start_param_referral (capture_referral_code w).1
          ≡ read_telegram_start_param_referral w)
unfolding read_referral_from_url read_telegram_start_param_referral
capture_sources w = let (_, r, p, _) = capture_parts w in (rw r refl, rw p refl)

sources_only :
    (w : Window) (m : Marks) (s : Storage)
    → (read_referral_from_url (record w { session = m; local = s }) ≡ read_referral_from_url w)
      × (read_telegram_start_param_referral (record w { session = m; local = s })
          ≡ read_telegram_start_param_referral w)
unfolding read_referral_from_url read_telegram_start_param_referral
sources_only w m s = (refl, refl)

-- What is captured in a window that an attempt has left: the same code, or none.
captured_again :
    (w : Window) (m : Marks) (s : Storage)
    → (s ≡ (capture_referral_code w).1.local) ⊎ (s ≡ removed (capture_referral_code w).1.local)
    → (captured_code (record (capture_referral_code w).1 { session = m; local = s })
        ≡ captured_code w)
      ⊎ (captured_code (record (capture_referral_code w).1 { session = m; local = s }) ≡ [])
captured_again w m s h =
    let again =
      code_again (read_referral_from_url w) (read_telegram_start_param_referral w) w.local
        (capture_referral_code w).1.local s (capture_local w) h in
    ground (
      arith,
      again,
      captured-code_of w,
      captured-code_of (record (capture_referral_code w).1 { session = m; local = s }),
      capture_sources w,
      sources_only (capture_referral_code w).1 m s,
    )

try_again :
    (server : Text → Option ℕ) (code : Text) (w : Window)
    → (code ≡ []) ⊎ (is_marked (referral_apply_session_key code) w.session ≡ true)
    → (try_apply_code server (code, w)).0 ≡ none
unfolding try_apply_code truthy
try_again server code w h = ground arith

sent_code :
    (server : Text → Option ℕ) (c code : Text) (w : Window)
    → (try_apply_code server (c, w)).0 ≡ some code
    → (code ≡ c) × ((try_apply_code server (c, w)).1 ≡ after_reply c (server c) w)
unfolding try_apply_code
sent_code server c code w e = ground arith

after_patch_parts :
    (code : Text) (status : ℕ) (w : Window)
    → IsRecording w.session
    → (s : Storage) × (m : Marks) × ((s ≡ w.local) ⊎ (s ≡ removed w.local))
      × (is_marked (referral_apply_session_key code) m ≡ true)
      × (after_patch code status w ≡ record w { session = m; local = s })
unfolding after_patch mark is_marked mem removed
after_patch_parts code status w rec =
    let key = referral_apply_session_key code in
    (
      if is_ok status then removed w.local else w.local,
      record w.session { keys = key ∷ w.session.keys },
      ground arith,
      ground (arith, same_refl key),
      ground arith,
    )

-- The window after a call that was answered.
answered :
    (server : Text → Option ℕ) (w : Window) (code : Text) (status : ℕ)
    → IsRecording w.session
    → (try_apply_referral_for_onboarded_user server w).0 ≡ some code
    → server code ≡ some status
    → (code ≡ captured_code w)
      × ((try_apply_referral_for_onboarded_user server w).1
          ≡ after_patch code status (capture_referral_code w).1)
unfolding try_apply_referral_for_onboarded_user after_reply
answered server w code status rec sent reply = ground (
  arith,
  sent_code server (capture_referral_code w).0 code (capture_referral_code w).1,
  capture_parts w,
)

IsRecording-capture :
    (w : Window) → IsRecording w.session → IsRecording (capture_referral_code w).1.session
IsRecording-capture w rec = let (_, _, _, same) = capture_parts w in rw same rec

-- A window with the mark of the captured code sends nothing.
quiet :
    (server : Text → Option ℕ) (w : Window) (m : Marks) (s : Storage) (code : Text)
    → code ≡ captured_code w
    → (s ≡ (capture_referral_code w).1.local) ⊎ (s ≡ removed (capture_referral_code w).1.local)
    → is_marked (referral_apply_session_key code) m ≡ true
    → (try_apply_referral_for_onboarded_user server
        (record (capture_referral_code w).1 { session = m; local = s })).0
      ≡ none
unfolding try_apply_referral_for_onboarded_user
quiet server w m s code taken kept marked =
    let w2 : Window = record (capture_referral_code w).1 { session = m; local = s } in
    let (found, _, _, kept_marks) = capture_parts w2 in
    try_again server (capture_referral_code w2).0 (capture_referral_code w2).1
      (ground (arith, captured_again w m s kept, found, kept_marks, taken, marked))

-- An attempt that the server answers, whatever its status, is the last one of the session for its
-- code: where the marks can be kept, the next call sends nothing.
try_apply_once :
    (server : Text → Option ℕ) (w : Window) (code : Text) (status : ℕ)
    → IsRecording w.session
    → (try_apply_referral_for_onboarded_user server w).0 ≡ some code
    → server code ≡ some status
    → (try_apply_referral_for_onboarded_user server
        (try_apply_referral_for_onboarded_user server w).1).0
      ≡ none
try_apply_once server w code status rec sent reply =
    let w1 = (capture_referral_code w).1 in
    let (taken, left) = answered server w code status rec sent reply in
    let (s, m, kept, marked, same) = after_patch_parts code status w1 (IsRecording-capture w rec) in
    rw (left, same) (quiet server w m s code taken kept marked)
