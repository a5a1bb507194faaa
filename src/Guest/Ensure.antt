-- ===== src/Guest/Ensure.antt =====
-- The silent registration of a guest (`ensureBrowserGuestSession` of
-- frontend/src/app/mini-app/lib/guest-client.ts).
use hunger_platform.Prelude.{
  ◌≡◌, ◌≢◌, refl, ◌⊎◌, ◌↔◌, inl, inr, Bool, true, false, ◌&&◌, not, Option, none, some, Text,
  truthy, trim, if◌then◌else◌, arith, if-rule,
}
use hunger_platform.Session.{is_ok, present}
use hunger_platform.Storage.{Storage, set_item, attempt, IsWorking}
use hunger_platform.Guest.{
  get_guest_client_id, set_guest_client_id, keep_registered, registration_of, register,
  read_profile, ensure_browser_guest_session, ensure_from, Registration, Registered,
}
use hunger_platform.Guest.Auth.{get-set_guest_client_id}

-- The id that a reply brings.
unfoldable pub brings : Option Registered → Option Text
brings none = none
brings (some r) =
    if is_ok r.status then elim r.client_id [ none ↦ none | some o ↦ present o ] else none

-- Without a session the registration keeps what the server sent, and says so; else it leaves the
-- storage alone and says that there is none.
keep_registered_cases :
    (reply : Option Registered) (s : Storage)
    → ((keep_registered reply s ≡ (false, some s)) × (brings reply ≡ none))
      ⊎ ((id : Text) × (brings reply ≡ some id)
          × (keep_registered reply s ≡ (true, set_guest_client_id id (some s))))
unfolding keep_registered brings present
keep_registered_cases none s = ground arith
keep_registered_cases (some r) s = ground arith

-- The three courses of `ensureBrowserGuestSession` with a storage: there is a guest already, and
-- nothing is done; there is no session, and the storage is as it was; or the profile on file was
-- registered, and the id of the reply is handed to the storage.
pub Ensured : (Registration → Option Registered) → Storage → Bool × Option Storage → Type 0
Ensured server s out =
    ((get_guest_client_id (some s) ≢ none) × (out ≡ (true, some s)))
    ⊎ ((get_guest_client_id (some s) ≡ none) × (out ≡ (false, some s)))
    ⊎ ((p : Registration) × (id : Text) × (get_guest_client_id (some s) ≡ none)
        × (read_profile s ≡ some p)
        × (brings (server (registration_of p)) ≡ some id)
        × (out ≡ (true, set_guest_client_id id (some s))))

module _ (server : Registration → Option Registered) (s : Storage) where
  register_course :
      (o : Option Registration)
      → get_guest_client_id (some s) ≡ none
      → read_profile s ≡ o
      → Ensured server s (register server o s)
  unfolding register Ensured
  register_course none e f = inr (inl (e, refl))
  register_course (some p) e f =
      if-rule (Ensured server s) (not (truthy p.first_name) && not (truthy p.phone)) (false, some s)
        (keep_registered (server (registration_of p)) s) (λ _. inr (inl (e, refl)))
        (λ _. elim (keep_registered_cases (server (registration_of p)) s) [
          | inl (same, _) ↦ inr (inl (e, same))
          | inr (id, sent, kept) ↦ inr (inr (p, id, e, f, sent, kept))
        ])

  ensure_from_course :
      (o : Option Text)
      → get_guest_client_id (some s) ≡ o
      → Ensured server s (ensure_from server o s)
  unfolding ensure_from Ensured
  ensure_from_course none e = register_course (read_profile s) e refl
  ensure_from_course (some id) e = inl (λ absent. cc, refl)

  -- Whatever is stored and whatever the server answers, `ensureBrowserGuestSession` finds a guest and
  -- does nothing, or says that there is no session and leaves the storage as it was, or registers
  -- the profile on file and hands the id of the reply to the storage.
  ensure_course : Ensured server s (ensure_browser_guest_session server (some s))
  unfolding ensure_browser_guest_session
  ensure_course = ensure_from_course (get_guest_client_id (some s)) refl

-- Where the storage works and the server's ids are not blank, the function says that there is a
-- session just when a guest's id can then be read.
ensure_iff :
    (server : Registration → Option Registered) (s : Storage)
    → IsWorking s
    → ((p : Registration) (id : Text) → brings (server p) ≡ some id → truthy (trim id) ≡ true)
    → ((ensure_browser_guest_session server (some s)).0 ≡ true)
      ↔ (get_guest_client_id (ensure_browser_guest_session server (some s)).1 ≢ none)
unfolding Ensured present
ensure_iff server s w ids = elim (ensure_course server s) [
  | inl (old, same) ↦ rw same (λ _. old, λ _. refl)
  | inr (inl (absent, same)) ↦ rw same (λ e. cc, λ h. absurd (h absent))
  | inr (inr (p, id, _, _, sent, kept)) ↦
      rw (kept, get-set_guest_client_id id s w)
        (rw (ids (registration_of p) id sent) (λ _. λ e. cc, λ _. refl))
]

-- Where the storage is full, a guest whose registration succeeds is told that there is a session,
-- and there is none: the id is lost.
ensure_full_storage :
    (server : Registration → Option Registered) (s : Storage) (p : Registration) (id : Text)
    → s.has_room ≡ false
    → get_guest_client_id (some s) ≡ none
    → read_profile s ≡ some p
    → truthy p.first_name ≡ true
    → brings (server (registration_of p)) ≡ some id
    → (ensure_browser_guest_session server (some s) ≡ (true, some s))
      × (get_guest_client_id (ensure_browser_guest_session server (some s)).1 ≡ none)
unfolding ensure_browser_guest_session ensure_from register set_guest_client_id set_item attempt
ensure_full_storage server s p id full absent profile named sent =
    let same : ensure_browser_guest_session server (some s) ≡ (true, some s) =
      rw (absent, ensure_from, profile)
        (ground (arith, keep_registered_cases (server (registration_of p)) s)) in
    (same, rw same absent)
