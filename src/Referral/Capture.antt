-- ===== src/Referral/Capture.antt =====
-- Keeping a code (frontend/src/app/mini-app/lib/referral.ts).
use hunger_platform.Prelude.{◌≡◌, refl, true, ◌||◌, none, Text, truthy, arith, ◌∙◌}
use hunger_platform.Storage.{set_item, attempt, IsWorking, get_item-set_item}
use hunger_platform.Referral.{
  Window, referral_storage_key, normalize_referral_code, read_referral_from_url,
  read_telegram_start_param_referral, read_stored_referral_code, parse_referral_from_start_param,
  or_text, captured_code, capture_referral_code,
}

-- The window of a later visit, without a code in its address or from Telegram.
pub later : Window → Window
later w = record w { ref = none; start_param = none }

stored_after :
    (w : Window) (code : Text)
    → IsWorking w.local
    → truthy code ≡ true
    → read_stored_referral_code
        (record w { local = attempt (set_item referral_storage_key code w.local) w.local })
      ≡ normalize_referral_code code
unfolding read_stored_referral_code
stored_after w code ok t =
    rw (get_item-set_item referral_storage_key referral_storage_key code w.local ok) (rw t refl)

captured_truthy :
    (w : Window)
    → (truthy (read_referral_from_url w) || truthy (read_telegram_start_param_referral w)) ≡ true
    → truthy (captured_code w) ≡ true
unfolding captured_code or_text
captured_truthy w h = ground arith

captured-later : (w : Window) → captured_code (later w) ≡ read_stored_referral_code w
unfolding later captured_code or_text read_referral_from_url read_telegram_start_param_referral
    read_stored_referral_code truthy parse_referral_from_start_param
captured-later w = refl

stored_capture :
    (w : Window)
    → IsWorking w.local
    → (truthy (read_referral_from_url w) || truthy (read_telegram_start_param_referral w)) ≡ true
    → read_stored_referral_code (capture_referral_code w).1
      ≡ normalize_referral_code (capture_referral_code w).0
unfolding capture_referral_code
stored_capture w ok h = rw h (stored_after w (captured_code w) ok (captured_truthy w h))

-- A code that comes with the address or from Telegram is found again, normalized, on a later visit
-- that brings none, where the storage works.
capture_later :
    (w : Window)
    → IsWorking w.local
    → (truthy (read_referral_from_url w) || truthy (read_telegram_start_param_referral w)) ≡ true
    → captured_code (later (capture_referral_code w).1)
      ≡ normalize_referral_code (capture_referral_code w).0
capture_later w ok h = captured-later (capture_referral_code w).1 ∙ stored_capture w ok h
