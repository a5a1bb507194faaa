-- ===== src/Referral/Share.antt =====
-- The links by which a code is shared (frontend/src/app/mini-app/lib/referral.ts). The environment is a
-- record; `encodeURIComponent` is a parameter of it, and so is the origin of the window, with `none`
-- where there is no window.
use hunger_platform.Prelude.{
  ◌≡◌, refl, ◌↔◌, inl, inr, Bool, true, false, ◌||◌, Option, none, some, [], ◌∷◌, ◌++◌, Text, codes,
  truthy, trim, starts_with, ◌==◌, if◌then◌else◌, arith, Bool-cases, if-rule,
}
use hunger_platform.Referral.{normalize_referral_code}

pub record Env : Type 0 where
  pub encode : Text → Text
  pub next_public_app_url : Option Text
  pub telegram_bot_username : Option Text
  pub window_origin : Option Text

-- `s.replace(/\/$/, "")`
unfoldable pub strip_slash : Text → Text
strip_slash [] = []
strip_slash (c ∷ []) = if c == b'/' then [] else c ∷ []
strip_slash (c ∷ d ∷ s) = c ∷ strip_slash (d ∷ s)

-- `process.env.NEXT_PUBLIC_APP_URL?.trim()`
abbrev trimmed_or_empty : Option Text → Text
trimmed_or_empty none = []
trimmed_or_empty (some s) = trim s

abbrev text_or_empty : Option Text → Text
text_or_empty none = []
text_or_empty (some s) = s

-- `getPublicAppUrl` of frontend/src/lib/env.ts
unfoldable pub get_public_app_url : Env → Text
unfolding strip_slash
get_public_app_url env =
    if truthy (trimmed_or_empty env.next_public_app_url)
    then strip_slash (trimmed_or_empty env.next_public_app_url)
    else text_or_empty env.window_origin

-- `s.includes(t)`
unfoldable pub includes : Text → Text → Bool
includes [] t = starts_with [] t
includes (c ∷ s) t = starts_with (c ∷ s) t || includes s t

-- `(… ?? '').replace(/^@/, '')`
unfoldable pub without_at : Option Text → Text
without_at none = []
without_at (some []) = []
without_at (some (c ∷ s)) = if starts_with (c ∷ s) (codes "@") then s else c ∷ s

-- `apiReferralLink?.includes('?ref=')`
unfoldable pub has_ref : Option Text → Bool
unfolding includes
has_ref none = false
has_ref (some link) = includes link (codes "?ref=")

module _ (env : Env) where
  -- The two ends of the function: the caller's link, or else one of the window's origin.
  unfoldable pub link_or_window : Text → Text → Text
  link_or_window normalized link = if truthy link then link else elim env.window_origin [
    | none ↦ []
    | some origin ↦ origin ++ (codes "/mini-app/onboarding?ref=" ++ env.encode normalized)
  ]

  -- What follows the test of `apiReferralLink?.includes('?ref=')`.
  unfoldable pub bot_link : Text → Text → Text
  unfolding without_at link_or_window
  bot_link normalized link =
      if truthy (without_at env.telegram_bot_username)
      then codes "https://t.me/"
        ++ (without_at env.telegram_bot_username ++ codes "?startapp=" ++ env.encode normalized)
      else link_or_window normalized link

  unfoldable pub build_referral_share_url : Text → Option Text → Text
  unfolding has_ref bot_link get_public_app_url
  build_referral_share_url code api_referral_link =
      let normalized = normalize_referral_code code in
      if truthy normalized
      then (if truthy (get_public_app_url env)
          then get_public_app_url env
            ++ (codes "/mini-app/onboarding?ref=" ++ env.encode normalized)
          else if has_ref api_referral_link
          then text_or_empty api_referral_link
          else bot_link normalized (text_or_empty api_referral_link))
      else []

  unfoldable pub onboarding_path_with_ref : Text → Text
  onboarding_path_with_ref code =
      let normalized = normalize_referral_code code in
      if truthy normalized
      then codes "/mini-app/onboarding?ref=" ++ env.encode normalized
      else codes "/mini-app/onboarding"

truthy-append : (s t : Text) → truthy t ≡ true → truthy (s ++ t) ≡ true
unfolding truthy
truthy-append [] t h = h
truthy-append (c ∷ s) t h = refl

includes-truthy : (s : Text) → includes s (codes "?ref=") ≡ true → truthy s ≡ true
unfolding includes starts_with truthy
includes-truthy [] h = cc
includes-truthy (c ∷ s) h = refl

truthy-link : (t : Text) → truthy (codes "/mini-app/onboarding?ref=" ++ t) ≡ true
unfolding truthy
truthy-link t = refl

truthy-bot : (t : Text) → truthy (codes "https://t.me/" ++ t) ≡ true
unfolding truthy
truthy-bot t = refl

Full : Text → Type 0
Full t = truthy t ≡ true

has_ref-truthy : (link : Option Text) → has_ref link ≡ true → truthy (text_or_empty link) ≡ true
unfolding has_ref
has_ref-truthy none h = cc
has_ref-truthy (some link) h = includes-truthy link h

bot_link-truthy :
    (env : Env) (origin normalized link : Text)
    → env.window_origin ≡ some origin
    → truthy (bot_link env normalized link) ≡ true
unfolding bot_link link_or_window
bot_link-truthy env origin normalized link w = ground (
  arith,
  truthy-bot (without_at env.telegram_bot_username ++ codes "?startapp=" ++ env.encode normalized),
  truthy-append origin (codes "/mini-app/onboarding?ref=" ++ env.encode normalized),
  truthy-link (env.encode normalized),
)

build-truthy :
    (env : Env) (origin code : Text) (link : Option Text)
    → env.window_origin ≡ some origin
    → truthy (normalize_referral_code code) ≡ true
    → truthy (build_referral_share_url env code link) ≡ true
unfolding build_referral_share_url Full
build-truthy env origin code link w t = rw t (
    if-rule Full (truthy (get_public_app_url env)) _ _
      (λ _.
        truthy-append (get_public_app_url env) _
          (truthy-link (env.encode (normalize_referral_code code))))
      (λ _.
        if-rule Full (has_ref link) _ _ (has_ref-truthy link)
          (λ _. bot_link-truthy env origin (normalize_referral_code code) (text_or_empty link) w)))

build-blank :
    (env : Env) (code : Text) (link : Option Text)
    → truthy (normalize_referral_code code) ≡ false
    → build_referral_share_url env code link ≡ []
unfolding build_referral_share_url
build-blank env code link t = rw t refl

-- In a browser there is a link to share just when the code is not blank, whatever is configured and
-- whatever link the caller has.
share_iff :
    (env : Env) (origin code : Text) (link : Option Text)
    → env.window_origin ≡ some origin
    → (truthy (build_referral_share_url env code link) ≡ true)
      ↔ (truthy (normalize_referral_code code) ≡ true)
share_iff env origin code link w = elim (Bool-cases (truthy (normalize_referral_code code))) [
  | inl t ↦ (λ _. t, build-truthy env origin code link w)
  | inr f ↦
      let blank = build-blank env code link f in
      (λ h. absurd (unfold truthy in cc), build-truthy env origin code link w)
]
