-- ===== src/Api.antt =====
-- frontend/src/lib/api.ts: errors of a request, its headers, and the check of its response.
-- `fetch` itself, the browser's cookie jar and the streams of a body are outside the model: a call is
-- the request that the client sends, and its response is an argument.
pub mod Messages
pub mod Headers
pub mod Shorthands
use kypassword_server.Base.{
  ℕ, ◌+◌, Text, codes, or_else, starts_with, index_of, decimal, is_empty, drop, Bool, true, false,
  not, ◌&&◌, ◌||◌, Option, none, some, List, [], ◌∷◌, ◌++◌, if◌then◌else◌, leb, ltb, ◌==◌, Result,
  ok, throw, ◌>>=◌,
}
use kypassword_server.Json.{Json, object, no_fields}

-- What the client's calls throw: an `HttpError`, another `Error` by its message, or a value that is
-- no `Error`.
pub data Thrown : Type 0 where
  http_error : ℕ → Text → Thrown
  other_error : Text → Thrown
  no_error : Thrown

abbrev pub prefix : Text
prefix = codes "request failed: "

abbrev pub separator : Text
separator = codes " - "

-- The `message` of an `HttpError`, as its constructor hands it to `Error`.
unfoldable pub http_message : ℕ → Text → Text
http_message status message = prefix ++ (decimal status ++ (separator ++ message))

slice_message : Text → Option ℕ → Text
slice_message m none = m
slice_message m (some i) = drop (i + 3) m

unfoldable pub message_text : Text → Text
unfolding slice_message
message_text m = if starts_with prefix m then slice_message m (index_of separator m) else m

unfoldable pub to_error_message : Thrown → Text → Text
unfolding message_text http_message
to_error_message (http_error status message) fallback = message_text (http_message status message)
to_error_message (other_error m) fallback = message_text m
to_error_message no_error fallback = fallback

-- The names of the headers that the client sets; `Headers` compares names without case.
pub data HeaderName : Type 0 where
  content_type csrf_token if_match password_envelope : HeaderName

abbrev pub same_name : HeaderName → HeaderName → Bool
same_name content_type content_type = true
same_name csrf_token csrf_token = true
same_name if_match if_match = true
same_name password_envelope password_envelope = true
same_name _ _ = false

abbrev pub Headers : Type 0
Headers = List (HeaderName × Text)

unfoldable pub get_header : HeaderName → Headers → Option Text
get_header n [] = none
get_header n ((m, v) ∷ hs) = if same_name m n then some v else get_header n hs

abbrev pub has_header : HeaderName → Headers → Bool
has_header n hs = elim (get_header n hs) [ none ↦ false | some _ ↦ true ]

-- What the test of `options.body` sees.
pub data Body : Type 0 where
  no_body : Body
  text_body : Text → Body
  binary_body : Body

abbrev is_nonempty_text : Body → Bool
is_nonempty_text (text_body t) = not (is_empty t)
is_nonempty_text _ = false

-- The units before the next `;`.
abbrev until_semicolon : Text → Text
until_semicolon [] = []
until_semicolon (c ∷ s) = if c == b';' then [] else c ∷ until_semicolon s

abbrev pub cookie_name : Text
cookie_name = codes "csrf_token="

-- `document.cookie.match(/csrf_token=([^;]+)/)`: the first place where the name and a unit that is no
-- `;` follow.
unfoldable pub csrf_match : Text → Option Text
csrf_match [] = none
csrf_match (c ∷ s) =
    let token = until_semicolon (drop 11 (c ∷ s)) in
    if starts_with cookie_name (c ∷ s) && not (is_empty token) then some token else csrf_match s

add_content_type : Body → Headers → Headers
add_content_type b hs =
    if not (has_header content_type hs) && is_nonempty_text b
    then (content_type, codes "application/json") ∷ hs
    else hs

add_csrf : Option Text → Headers → Headers
add_csrf none hs = hs
add_csrf (some token) hs = if has_header csrf_token hs then hs else (csrf_token, token) ∷ hs

-- The headers that `request` sends.
unfoldable pub request_headers : Text → Body → Headers → Headers
unfolding add_content_type add_csrf
request_headers cookie b hs = add_csrf (csrf_match cookie) (add_content_type b hs)

pub record Response : Type 0 where
  pub status : ℕ
  pub status_text : Text
  pub text : Text
  -- what `res.json()` returns or throws
  pub json : Result Thrown Json

-- `res.ok`.
abbrev is_ok : Response → Bool
is_ok r = leb 200 r.status && ltb r.status 300

unfoldable pub check_response : Response → Result Thrown Response
check_response r =
    if is_ok r then ok r else throw (http_error r.status (or_else r.text r.status_text))

unfoldable pub request_json : Response → Result Thrown Json
unfolding check_response
request_json response = do
  r ← check_response response
  if r.status == 204 then ok (object no_fields) else r.json
