-- ===== src/Spa/Api.antt =====
-- `apiFetch` of app.js, on what the browser's `fetch` replied.
pub mod Laws
use trace_graph.Base.{
  ℕ, Text, codes, decimal, starts_with, leb, if◌then◌else◌, List, [], ◌∷◌, ◌++◌, Bool, true, false,
  Option, none, some, ◌&&◌, ◌||◌,
}
use trace_graph.Value.{Js, str}

-- A response has its JSON value where its body parses, else the message of the SyntaxError.
pub data Body : Type 0 where
  parsed : Js → Body
  syntax_error : Text → Body

pub record Response : Type 0 where
  pub status : ℕ
  pub content_type : Option Text
  pub json : Body
  pub text : Text

-- What `await fetch(path, opts)` comes to; a rejected promise has its message.
pub data Reply : Type 0 where
  rejected : Text → Reply
  answered : Response → Reply

-- What `await apiFetch(path, opts)` comes to: a value, or an error with its message and, where
-- `apiFetch` throws it itself, its status.
pub data ApiResult : Type 0 where
  value : Js → ApiResult
  failure : Text → Option ℕ → ApiResult

-- `s.includes(t)`
unfoldable pub contains : Text → Text → Bool
contains [] t = starts_with [] t
contains (c ∷ s) t = starts_with (c ∷ s) t || contains s t

-- `res.headers.get('content-type') || ''`
unfoldable pub content_type_text : Response → Text
content_type_text r = elim r.content_type [ none ↦ [] | some t ↦ t ]

unfoldable pub json_result : Body → ApiResult
json_result (parsed v) = value v
json_result (syntax_error m) = failure m none

unfoldable pub is_success : ℕ → Bool
is_success status = leb 200 status && leb status 299

unfoldable pub api_fetch : Reply → ApiResult
unfolding json_result content_type_text is_success contains
api_fetch (rejected m) = failure m none
api_fetch (answered r) =
    if is_success r.status
    then if contains (content_type_text r) (codes "application/json")
      then json_result r.json
      else value (str r.text)
    else failure (codes "HTTP " ++ decimal r.status) (some r.status)

-- `e.status === 404`
unfoldable pub is_not_found : Option ℕ → Bool
is_not_found none = false
is_not_found (some n) = leb 404 n && leb n 404
