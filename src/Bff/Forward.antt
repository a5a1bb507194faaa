-- ===== src/Bff/Forward.antt =====
-- What the proxy lets through (frontend/src/app/api/bff/[...path]/route.ts).
use hunger_platform.Prelude.{
  ℕ, String, ◌≡◌, ◌≢◌, refl, ◌⊎◌, ◌↔◌, Option, none, some, List, [], ◌∷◌, ◌++◌, str_eq, Text, codes,
  same→eq, truthy, lookup, if◌then◌else◌, lookup-insert, str_eq-false, arith,
}
use hunger_platform.Session.{Jar, present, Backend, Body, login, signed_in, TokenPair}
use hunger_platform.Session.Cookies.{IsSignIn, login-IsSignIn, kept_by}
use hunger_platform.Bff.{
  Method, get, head, Headers, Incoming, join, upstream_subpath, is_color_formulas, set_present,
  authorization, forward_headers, forward_body, outgoing,
}

-- What is read after `set_present`.
abbrev pub or_else : Option Text → Option Text → Option Text
or_else none b = b
or_else (some a) b = some a

lookup-set_present :
    (name key : String) (v : Option Text) (headers : Headers)
    → lookup key (set_present name v headers)
      ≡ (if str_eq name key then or_else v (lookup key headers) else lookup key headers)
unfolding set_present
lookup-set_present name key none headers = ground arith
lookup-set_present name key (some v) headers = lookup-insert name key v headers

or_else-none : (a : Option Text) → or_else a none ≡ a
or_else-none none = refl
or_else-none (some a) = refl

-- A token that is there, behind `Bearer`.
abbrev pub bearer : Option Text → Option Text
bearer none = none
bearer (some token) = some (codes "Bearer " ++ token)

authorization-or_else :
    (own access : Option Text) → authorization own access ≡ or_else own (bearer access)
unfolding authorization
authorization-or_else none none = refl
authorization-or_else none (some token) = refl
authorization-or_else (some incoming) access = refl

-- The header `Authorization` that goes upstream is the caller's own if it has one, or else the
-- session's token behind `Bearer`, or else there is none; the two identities of the mini app go as
-- they came.
pub forward_identity :
    (incoming : Headers) (access : Option Text)
    → (lookup "authorization" (forward_headers incoming access)
        ≡ or_else (present (lookup "authorization" incoming)) (bearer (present access)))
      × (lookup "x-telegram-init-data" (forward_headers incoming access)
          ≡ present (lookup "x-telegram-init-data" incoming))
      × (lookup "x-guest-client-id" (forward_headers incoming access)
          ≡ present (lookup "x-guest-client-id" incoming))
unfolding forward_headers lookup
forward_identity incoming access = (
  simp (lookup-set_present, lookup-insert, or_else-none, authorization-or_else),
  simp (lookup-set_present, lookup-insert, or_else-none),
  simp (lookup-set_present, lookup-insert, or_else-none),
)

-- The names of the headers that the proxy may send.
unfoldable pub forwarded_names : List String
forwarded_names =
    "accept" ∷ "content-type" ∷ "authorization" ∷ "x-telegram-init-data" ∷ "x-guest-client-id" ∷ []

unfoldable pub IsOther : String → List String → Type 0
IsOther name [] = Unit
IsOther name (n ∷ ns) = (n ≢ name) × IsOther name ns

-- No other header of the browser goes upstream, its cookies included.
forward_others :
    (incoming : Headers) (access : Option Text) (name : String)
    → IsOther name forwarded_names
    → lookup name (forward_headers incoming access) ≡ none
unfolding forward_headers lookup IsOther forwarded_names
forward_others incoming access name (a, (b, (c, (d, (e, _))))) = simp (
  lookup-set_present,
  lookup-insert,
  str_eq-false "accept" name a,
  str_eq-false "content-type" name b,
  str_eq-false "authorization" name c,
  str_eq-false "x-telegram-init-data" name d,
  str_eq-false "x-guest-client-id" name e,
)

-- A body goes upstream just when the method has one and it is not empty, and then unchanged.
pub forward_body_iff :
    (method : Method) (body sent : List ℕ)
    → (forward_body method body ≡ some sent)
      ↔ ((method ≢ get) × (method ≢ head) × (body ≢ []) × (sent ≡ body))
unfolding forward_body truthy
forward_body_iff get [] sent = ground arith
forward_body_iff _ [] sent = ground arith
forward_body_iff _ (x ∷ body) sent = ground arith

-- The path upstream is that of the request, but for the collection of colour formulas, which gets a
-- slash at its end unless it is deleted.
upstream_subpath_cases :
    (segments : List Text) (method : Method)
    → (upstream_subpath segments method ≡ join segments)
      ⊎ ((upstream_subpath segments method ≡ join segments ++ codes "/")
          × (segments ≡ codes "color-formulas" ∷ [])
          × (method ≢ Method.delete))
unfolding upstream_subpath join is_color_formulas
upstream_subpath_cases [] method = ground arith
upstream_subpath_cases (s ∷ []) method = ground (arith, same→eq s (codes "color-formulas"))
upstream_subpath_cases (s ∷ t ∷ segments) method = ground arith

-- After a login that succeeds, a request that has no `Authorization` of its own goes upstream with
-- the access token of that login, unless that is empty.
login-bearer :
    (b : Backend) (body : Body) (jar jar' : Jar) (page role : String) (request : Incoming)
    (base : Text) (segments : List Text) (method : Method)
    → login b body jar ≡ (signed_in page role, jar')
    → present (lookup "authorization" request.headers) ≡ none
    → (t : TokenPair) × (b.decode_role t.access_token ≢ none)
      × (lookup "authorization" (outgoing base segments method request jar').headers
          ≡ bearer (present (some t.access_token)))
unfolding outgoing
login-bearer b body jar jar' page role request base segments method e own =
    let signed : IsSignIn b b.login_call body jar (signed_in page role, jar') =
      rw e at (login-IsSignIn b body jar) in
    let (t, claim, decoded, goes, kept) = kept_by b b.login_call body jar jar' page role signed in
    (t, λ no_claim. cc, rw ((forward_identity request.headers _).0, own, kept.access) refl)
