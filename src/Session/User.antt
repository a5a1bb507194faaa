-- ===== src/Session/User.antt =====
-- Who the pages take the user to be, by the cookie of the session (frontend/src/lib/server-session.ts).
-- The calls of the backend are parameters; `none` outside says that something threw.
use hunger_platform.Prelude.{
  ℕ, String, ◌≡◌, refl, Option, none, some, Text, not, str_eq, if◌then◌else◌,
}
use hunger_platform.Session.{Jar, cookie_access, cookie_value, present, is_ok, logout}
use hunger_platform.Session.Cookies.{value-delete_tokens}

-- A reply whose JSON holds a value, `none` if it cannot be read.
pub record Reply {ℓ} (A : Type ℓ) : Type ℓ where
  pub status : ℕ
  pub json : Option A

module _ {ℓ} {User : Type ℓ} where
  -- `if (!res.ok) return null; return res.json()`
  unfoldable pub user_of_reply : Option (Reply User) → Option (Option User)
  unfolding is_ok
  user_of_reply none = none
  user_of_reply (some res) =
      if not (is_ok res.status)
      then some none
      else elim res.json [ none ↦ none | some user ↦ some (some user) ]

  -- What follows `const token = …`.
  unfoldable pub user_from : (Text → Option (Reply User)) → Option Text → Option (Option User)
  unfolding user_of_reply
  user_from me none = some none
  user_from me (some token) = user_of_reply (me token)

  unfoldable pub get_session_user : (Text → Option (Reply User)) → Jar → Option (Option User)
  unfolding user_from
  get_session_user me jar = user_from me (present (cookie_value cookie_access jar))

-- `t === "premium_dark" ? "premium_dark" : "premium_light"`, for a theme that may be missing.
abbrev theme_or_light : Option String → String
theme_or_light none = "premium_light"
theme_or_light (some t) = if str_eq t "premium_dark" then "premium_dark" else "premium_light"

unfoldable pub theme_of_reply : Option (Reply (Option String)) → Option String
unfolding is_ok
theme_of_reply none = none
theme_of_reply (some res) =
    if not (is_ok res.status)
    then some "premium_light"
    else elim res.json [ none ↦ none | some theme ↦ some (theme_or_light theme) ]

unfoldable pub theme_from : (Text → Option (Reply (Option String))) → Option Text → Option String
unfolding theme_of_reply
theme_from salon none = some "premium_light"
theme_from salon (some token) = theme_of_reply (salon token)

unfoldable pub get_salon_theme_for_layout :
    (Text → Option (Reply (Option String))) → Jar → Option String
unfolding theme_from
get_salon_theme_for_layout salon jar = theme_from salon (present (cookie_value cookie_access jar))

-- After a logout the pages have no user, and the light theme, without a call of the backend.
pub logout-get_session_user {ℓ} :
    {User : Type ℓ} (me : Text → Option (Reply User))
    (salon : Text → Option (Reply (Option String))) (jar : Jar)
    → (get_session_user me (logout jar).2 ≡ some none)
      × (get_salon_theme_for_layout salon (logout jar).2 ≡ some "premium_light")
unfolding logout get_session_user get_salon_theme_for_layout present
logout-get_session_user me salon jar =
    (rw (value-delete_tokens jar).0 refl, rw (value-delete_tokens jar).0 refl)
