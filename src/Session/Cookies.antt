-- ===== src/Session/Cookies.antt =====
-- What the session routes do to the cookies (frontend/src/app/api/auth/*/route.ts).
use hunger_platform.Prelude.{
  ℕ, ◌≤◌, ◌<◌, String, ◌≡◌, ◌≢◌, refl, ◌⊎◌, inl, inr, Bool, true, false, ◌||◌, not, Option, none,
  some, Text, truthy, trim, lookup, lookup-insert, lookup-remove, arith, sym, str_eq-false, if-rule,
  if◌then◌else◌,
}
use hunger_platform.Session.{
  cookie_access, cookie_refresh, TokenPair, Jar, cookie_value, Upstream, is_ok, Backend, Answer,
  threw, error, signed_in, refreshed, set_tokens, delete_tokens, present, refresh_from, sign_in_as,
  refresh_with, role_or_reception, redirect_for_role, text_or_empty, Body, fields, invalid, null,
  sign_in_with, sign_in_reply, login, invite, refresh, refresh_reply,
}

pub value-set_tokens :
    (production : Bool) (t : TokenPair) (jar : Jar)
    → (cookie_value cookie_access (set_tokens production t jar) ≡ some t.access_token)
      × (cookie_value cookie_refresh (set_tokens production t jar) ≡ some t.refresh_token)
unfolding cookie_value set_tokens
value-set_tokens production t jar = (simp lookup-insert, simp lookup-insert)

pub value-delete_tokens :
    (jar : Jar)
    → (cookie_value cookie_access (delete_tokens jar) ≡ none)
      × (cookie_value cookie_refresh (delete_tokens jar) ≡ none)
unfolding cookie_value delete_tokens
value-delete_tokens jar = (simp lookup-remove, simp lookup-remove)

other-set_tokens :
    (production : Bool) (t : TokenPair) (jar : Jar) (name : String)
    → name ≢ cookie_access
    → name ≢ cookie_refresh
    → lookup name (set_tokens production t jar) ≡ lookup name jar
unfolding set_tokens
other-set_tokens production t jar name a r = simp (
  lookup-insert,
  str_eq-false cookie_access name (λ e. a (sym e)),
  str_eq-false cookie_refresh name (λ e. r (sym e)),
)

other-delete_tokens :
    (jar : Jar) (name : String)
    → name ≢ cookie_access
    → name ≢ cookie_refresh
    → lookup name (delete_tokens jar) ≡ lookup name jar
unfolding delete_tokens
other-delete_tokens jar name a r = simp (
  lookup-remove,
  str_eq-false cookie_access name (λ e. a (sym e)),
  str_eq-false cookie_refresh name (λ e. r (sym e)),
)

-- The jar holds the tokens, and every other cookie is as it was.
pub record HasTokens (t : TokenPair) (jar jar' : Jar) : Type 0 where
  pub access : cookie_value cookie_access jar' ≡ some t.access_token
  pub refresh : cookie_value cookie_refresh jar' ≡ some t.refresh_token
  pub others :
      (name : String)
      → name ≢ cookie_access
      → name ≢ cookie_refresh
      → lookup name jar' ≡ lookup name jar

-- The jar holds neither token, and every other cookie is as it was.
pub record HasNoTokens (jar jar' : Jar) : Type 0 where
  pub access : cookie_value cookie_access jar' ≡ none
  pub refresh : cookie_value cookie_refresh jar' ≡ none
  pub others :
      (name : String)
      → name ≢ cookie_access
      → name ≢ cookie_refresh
      → lookup name jar' ≡ lookup name jar

pub set_tokens-HasTokens :
    (production : Bool) (t : TokenPair) (jar : Jar) → HasTokens t jar (set_tokens production t jar)
set_tokens-HasTokens production t jar = record {
  access = (value-set_tokens production t jar).0;
  refresh = (value-set_tokens production t jar).1;
  others = other-set_tokens production t jar;
}

pub delete_tokens-HasNoTokens : (jar : Jar) → HasNoTokens jar (delete_tokens jar)
delete_tokens-HasNoTokens jar = record {
  access = (value-delete_tokens jar).0;
  refresh = (value-delete_tokens jar).1;
  others = other-delete_tokens jar;
}

module _ (b : Backend) where
  -- What a sign-in makes of the backend's reply. It succeeds where the reply is one of success whose
  -- access token has a claim that can be read, and keeps the two tokens of that very reply; it fails with
  -- an error where the reply is one of failure; it throws where there is no reply or nothing to read
  -- in it.
  abbrev pub IsAnswered : Option Upstream → Jar → Answer × Jar → Type 0
  IsAnswered o jar (threw, jar') =
      (jar' ≡ jar)
      × ((o ≡ none)
          ⊎ ((up : Upstream) × (o ≡ some up)
              × (is_ok up.status ≡ true)
              × ((up.tokens ≡ none)
                  ⊎ ((t : TokenPair) × (up.tokens ≡ some t)
                      × (b.decode_role t.access_token ≡ none)))))
  IsAnswered o jar (error status code, jar') =
      (up : Upstream) × (o ≡ some up)
      × (is_ok up.status ≡ false)
      × (400 ≤ status)
      × (status < 600)
      × (jar' ≡ jar)
  IsAnswered o jar (signed_in page role, jar') =
      (up : Upstream) × (t : TokenPair) × (claim : Option String) × (o ≡ some up)
      × (is_ok up.status ≡ true)
      × (up.tokens ≡ some t)
      × (b.decode_role t.access_token ≡ some claim)
      × (role ≡ role_or_reception claim)
      × (page ≡ redirect_for_role role)
      × HasTokens t jar jar'
  IsAnswered o jar (_, jar') = ⊥

  -- A sign-in of a body that is not JSON answers 400, one of `null` throws, and one with a field that
  -- is missing answers 400, all without a change of a cookie; every other one makes its answer of the
  -- backend's reply to the two fields, of which the first is trimmed.
  abbrev pub IsSignIn : (Text → Text → Option Upstream) → Body → Jar → Answer × Jar → Type 0
  IsSignIn call invalid jar r = r ≡ (error 400 "invalid_json", jar)
  IsSignIn call null jar r = r ≡ (threw, jar)
  IsSignIn call (fields first second) jar r =
      (((truthy (trim (text_or_empty first)) ≡ false) ⊎ (truthy (text_or_empty second) ≡ false))
        × ((code : String) × (r ≡ (error 400 code, jar))))
      ⊎ ((truthy (trim (text_or_empty first)) ≡ true)
          × (truthy (text_or_empty second) ≡ true)
          × IsAnswered (call (trim (text_or_empty first)) (text_or_empty second)) jar r)

  sign_in_as-IsAnswered :
      (up : Upstream) (t : TokenPair) (claim : Option (Option String)) (jar : Jar)
      → is_ok up.status ≡ true
      → up.tokens ≡ some t
      → b.decode_role t.access_token ≡ claim
      → IsAnswered (some up) jar (sign_in_as b t claim jar)
  unfolding sign_in_as
  sign_in_as-IsAnswered up t none jar ok h e = (refl, inr (up, refl, ok, inr (t, h, e)))
  sign_in_as-IsAnswered up t (some claim) jar ok h e =
      (up, t, claim, refl, ok, h, e, refl, refl, set_tokens-HasTokens b.production t jar)

  sign_in_with-IsAnswered :
      (up : Upstream) (tokens : Option TokenPair) (jar : Jar)
      → is_ok up.status ≡ true
      → up.tokens ≡ tokens
      → IsAnswered (some up) jar (sign_in_with b tokens jar)
  unfolding sign_in_with
  sign_in_with-IsAnswered up none jar ok h = (refl, inr (up, refl, ok, inl h))
  sign_in_with-IsAnswered up (some t) jar ok h =
      sign_in_as-IsAnswered up t (b.decode_role t.access_token) jar ok h refl

  sign_in_reply-IsAnswered :
      (code : String) (status : ℕ) (o : Option Upstream) (jar : Jar)
      → 400 ≤ status
      → status < 600
      → IsAnswered o jar (sign_in_reply b code status o jar)
  unfolding sign_in_reply
  sign_in_reply-IsAnswered code status none jar lo hi = (refl, inl refl)
  sign_in_reply-IsAnswered code status (some up) jar lo hi =
      if-rule (IsAnswered (some up) jar) (not (is_ok up.status)) _ _
        (λ e. (up, refl, ground arith, ground arith, ground arith, refl))
        (λ e. sign_in_with-IsAnswered up up.tokens jar (ground arith) refl)

  fields-IsSignIn :
      (call : Text → Text → Option Upstream) (missing code : String) (status : ℕ)
      (first second : Option Text) (jar : Jar)
      → 400 ≤ status
      → status < 600
      → IsSignIn call (fields first second) jar (
          if not (truthy (trim (text_or_empty first))) || not (truthy (text_or_empty second))
          then (error 400 missing, jar)
          else sign_in_reply b code status
              (call (trim (text_or_empty first)) (text_or_empty second))
              jar)
  fields-IsSignIn call missing code status first second jar lo hi =
      if-rule (IsSignIn call (fields first second) jar)
        (not (truthy (trim (text_or_empty first))) || not (truthy (text_or_empty second))) _ _
        (λ e. inl (ground arith, (missing, refl)))
        (λ e. inr (
          ground arith,
          ground arith,
          sign_in_reply-IsAnswered code status
              (call (trim (text_or_empty first)) (text_or_empty second)) jar lo hi,
        ))

  -- Whatever the request and whatever the backend replies: a login succeeds only with both fields and a
  -- reply of success, puts the two tokens of that reply in the two cookies, changes no other cookie,
  -- and answers with the role in the access token and the page for that role. One that fails changes no
  -- cookie: it answers 400 where the body is not JSON or a field is missing, an error from 400 to 599
  -- where the reply is one of failure, and throws where the body is `null`, there is no reply, or its
  -- tokens cannot be read.
  pub login-IsSignIn : (body : Body) (jar : Jar) → IsSignIn b.login_call body jar (login b body jar)
  unfolding login
  login-IsSignIn invalid jar = refl
  login-IsSignIn null jar = refl
  login-IsSignIn (fields email password) jar =
      fields-IsSignIn b.login_call "email_password_required" "login_failed" 401 email password jar
        (omega arith) (omega arith)

  -- The same of an invitation that is accepted, with its token and the new password.
  invite-IsSignIn : (body : Body) (jar : Jar) → IsSignIn b.accept_call body jar (invite b body jar)
  unfolding invite
  invite-IsSignIn invalid jar = refl
  invite-IsSignIn null jar = refl
  invite-IsSignIn (fields token password) jar =
      fields-IsSignIn b.accept_call "token_password_required" "invite_failed" 400 token password jar
        (omega arith) (omega arith)

  -- What a sign-in that succeeded has kept.
  pub kept_by :
      (call : Text → Text → Option Upstream) (body : Body) (jar jar' : Jar) (page role : String)
      → IsSignIn call body jar (signed_in page role, jar')
      → (t : TokenPair) × (claim : Option String) × (b.decode_role t.access_token ≡ some claim)
        × (page ≡ redirect_for_role role)
        × HasTokens t jar jar'
  kept_by call invalid jar jar' page role h = absurd cc
  kept_by call null jar jar' page role h = absurd cc
  kept_by call (fields first second) jar jar' page role (inl (_, (code, h))) = absurd cc
  kept_by call (fields first second) jar jar' page role
        (inr (_, _, (up, t, claim, _, _, _, decoded, _, goes, kept))) =
      (t, claim, decoded, goes, kept)

  -- A refresh succeeds where the backend replies to the kept token with a success, and keeps the two
  -- tokens of that reply; where it replies with a failure, the cookies are gone; where there is no
  -- token to send, or no reply or nothing to read in it, no cookie changes.
  abbrev pub IsRefresh : Jar → Answer × Jar → Type 0
  IsRefresh jar (refreshed, jar') =
      (token : Text) × (up : Upstream) × (t : TokenPair) × (present
          (cookie_value cookie_refresh jar)
        ≡ some token)
      × (b.refresh_call token ≡ some up)
      × (is_ok up.status ≡ true)
      × (up.tokens ≡ some t)
      × HasTokens t jar jar'
  IsRefresh jar (error status code, jar') =
      (status ≡ 401)
      × (((code ≡ "refresh_failed")
            × ((token : Text) × (up : Upstream) × (present (cookie_value cookie_refresh jar)
                  ≡ some token)
                × (b.refresh_call token ≡ some up)
                × (is_ok up.status ≡ false)
                × HasNoTokens jar jar'))
          ⊎ ((code ≡ "no_refresh")
              × (present (cookie_value cookie_refresh jar) ≡ none)
              × (jar' ≡ jar)))
  IsRefresh jar (threw, jar') =
      (jar' ≡ jar)
      × ((token : Text) × (present (cookie_value cookie_refresh jar) ≡ some token)
          × ((b.refresh_call token ≡ none)
              ⊎ ((up : Upstream) × (b.refresh_call token ≡ some up)
                  × (is_ok up.status ≡ true)
                  × (up.tokens ≡ none))))
  IsRefresh jar (_, jar') = ⊥

  refresh_with-IsRefresh :
      (token : Text) (up : Upstream) (tokens : Option TokenPair) (jar : Jar)
      → present (cookie_value cookie_refresh jar) ≡ some token
      → b.refresh_call token ≡ some up
      → is_ok up.status ≡ true
      → up.tokens ≡ tokens
      → IsRefresh jar (refresh_with b tokens jar)
  unfolding refresh_with
  refresh_with-IsRefresh token up none jar h c ok e = (refl, (token, h, inr (up, c, ok, e)))
  refresh_with-IsRefresh token up (some t) jar h c ok e =
      (token, up, t, h, c, ok, e, set_tokens-HasTokens b.production t jar)

  refresh_reply-IsRefresh :
      (token : Text) (o : Option Upstream) (jar : Jar)
      → present (cookie_value cookie_refresh jar) ≡ some token
      → b.refresh_call token ≡ o
      → IsRefresh jar (refresh_reply b o jar)
  unfolding refresh_reply
  refresh_reply-IsRefresh token none jar h c = (refl, (token, h, inl c))
  refresh_reply-IsRefresh token (some up) jar h c =
      if-rule (IsRefresh jar) (not (is_ok up.status)) _ _
        (λ e. (refl, inl (refl, (token, up, h, c, ground arith, delete_tokens-HasNoTokens jar))))
        (λ e. refresh_with-IsRefresh token up up.tokens jar h c (ground arith) refl)

  refresh_from-IsRefresh :
      (o : Option Text) (jar : Jar)
      → present (cookie_value cookie_refresh jar) ≡ o
      → IsRefresh jar (refresh_from b o jar)
  unfolding refresh_from
  refresh_from-IsRefresh none jar e = (refl, inr (refl, e, refl))
  refresh_from-IsRefresh (some token) jar e =
      refresh_reply-IsRefresh token (b.refresh_call token) jar e refl

  -- Whatever the cookies and whatever the backend replies: a refresh succeeds only where a refresh token
  -- is kept and the backend replies to it with a success, and it puts the two tokens of that reply in the
  -- two cookies; where the backend replies with a failure it answers 401 and both tokens are gone;
  -- without a refresh token it answers 401, and where there is no reply or its tokens cannot be read it
  -- throws, and then no cookie changes. No other cookie ever changes.
  pub refresh-IsRefresh : (jar : Jar) → IsRefresh jar (refresh b jar)
  unfolding refresh
  refresh-IsRefresh jar =
      refresh_from-IsRefresh (present (cookie_value cookie_refresh jar)) jar refl
