-- ===== src/Api/Retry.antt =====
-- The requests that the client makes, and their order (`apiFetch` of frontend/src/lib/api.ts).
use hunger_platform.Prelude.{
  ◌≡◌, ◌≢◌, refl, ◌⊎◌, inl, inr, true, false, Option, none, some, [], ◌∷◌, ◌++◌, ◌==◌, Text, String,
  codes, starts_with, lookup, if◌then◌else◌, arith, Bool-cases, str_eq, eq_iff, lookup-insert,
}
use hunger_platform.Session.{is_ok}
use hunger_platform.Api.{
  text_body, Init, Request, Response, Log, Server, fetch, normalize_path, refresh_request,
  after_refresh, after_first, request_of, api_fetch, enhance, enhance_body, set_content_type,
}

-- A request that is not refused by a 401.
IsDone : Option Response → Type 0
IsDone none = Unit
IsDone (some res) = res.status ≢ 401

-- The three courses of `apiFetch`: the request alone, not refused; the request and a refresh that
-- fails, with the refused response or the refresh's exception; and the request, a refresh that is
-- accepted and the request again, with whatever is then answered.
pub Course : Server → Request → Log → Option Response × Log → Type 0
Course serve r log out =
    (IsDone (serve log r) × (out ≡ (serve log r, log ++ r ∷ [])))
    ⊎ ((res : Response) × (serve log r ≡ some res)
        × (res.status ≡ 401)
        × (out.1 ≡ (log ++ r ∷ []) ++ refresh_request ∷ [])
        × (((serve (log ++ r ∷ []) refresh_request ≡ none) × (out.0 ≡ none))
            ⊎ ((answer : Response) × (serve (log ++ r ∷ []) refresh_request ≡ some answer)
                × (is_ok answer.status ≡ false)
                × (out.0 ≡ some res))))
    ⊎ ((res answer : Response) × (serve log r ≡ some res)
        × (res.status ≡ 401)
        × (serve (log ++ r ∷ []) refresh_request ≡ some answer)
        × (is_ok answer.status ≡ true)
        × (out ≡ (
          serve ((log ++ r ∷ []) ++ refresh_request ∷ []) r,
          ((log ++ r ∷ []) ++ refresh_request ∷ []) ++ r ∷ [],
        )))

module _ (serve : Server) (r : Request) (log : Log) where
  refused-Course :
      (res : Response) (answer : Option Response)
      → serve log r ≡ some res
      → res.status ≡ 401
      → serve (log ++ r ∷ []) refresh_request ≡ answer
      → Course serve r log
          (after_refresh serve r res (answer, (log ++ r ∷ []) ++ refresh_request ∷ []))
  unfolding Course after_refresh fetch
  refused-Course res none e s a = inr (inl (res, e, s, refl, inl (a, refl)))
  refused-Course res (some answer) e s a = elim (Bool-cases (is_ok answer.status)) [
    | inl good ↦ rw good (inr (inr (res, answer, e, s, a, good, refl)))
    | inr bad ↦ rw bad (inr (inl (res, e, s, refl, inr (answer, a, bad, refl))))
  ]

  first-Course :
      (o : Option Response)
      → serve log r ≡ o
      → Course serve r log (after_first serve r (o, log ++ r ∷ []))
  unfolding after_first fetch Course IsDone
  first-Course none e = inl (rw e tt, rw e refl)
  first-Course (some res) e = elim (Bool-cases (res.status == 401)) [
    | inl s ↦
        rw s (refused-Course res (serve (log ++ r ∷ []) refresh_request) e (ground arith) refl)
    | inr s ↦ rw s (inl (rw e (ground arith), rw e refl))
  ]

-- Whatever the server answers, `apiFetch` makes the request and gives its answer, unless that is a
-- 401; then it makes one refresh, and gives the first answer if the refresh is refused, an exception
-- if the refresh throws, and else makes the request once more and gives whatever is then answered.
pub api_fetch-Course :
    (serve : Server) (path : Text) (init : Init) (log : Log)
    → Course serve (request_of path init) log (api_fetch serve path init log)
unfolding api_fetch fetch
api_fetch-Course serve path init log =
    first-Course serve (request_of path init) log (serve log (request_of path init)) refl

-- A path with a slash at its start and the same path without it are one request.
pub request_of_slash :
    (path : Text) (init : Init)
    → starts_with path (codes "/") ≡ false
    → request_of (codes "/" ++ path) init ≡ request_of path init
unfolding request_of normalize_path starts_with
request_of_slash path init h = rw h refl

pub content_type : Option Text → Option Text
content_type none = some (codes "application/json")
content_type (some v) = some v

lookup-set_content_type :
    (o : Option Text) (init : Init) (name : String)
    → lookup "content-type" init.headers ≡ o
    → lookup name (set_content_type o init).headers
      ≡ (if str_eq "content-type" name then content_type o else lookup name init.headers)
unfolding set_content_type content_type
lookup-set_content_type none init name h =
    lookup-insert "content-type" name (codes "application/json") init.headers
lookup-set_content_type (some v) init name h = ground (arith, eq_iff "content-type" name)

-- A text goes out as JSON, unless the caller named another content type; no other header changes.
pub lookup-enhance :
    (init : Init) (s : Text) (name : String)
    → init.body ≡ text_body s
    → lookup name (enhance init).headers ≡ (
        if str_eq "content-type" name
        then content_type (lookup "content-type" init.headers)
        else lookup name init.headers)
unfolding enhance enhance_body
lookup-enhance init s name h =
    simp h (lookup-set_content_type (lookup "content-type" init.headers) init name refl)
