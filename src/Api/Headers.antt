-- ===== src/Api/Headers.antt =====
-- The headers of a request: what the caller set stays, and the double-submit token is added.
use kypassword_server.Base.{Text, none, some, ◌≡◌, arith}
use kypassword_server.Api.{
  HeaderName, csrf_token, Headers, get_header, Body, csrf_match, request_headers,
}

-- A header that the caller set is sent as it is, whatever the cookie and the body.
pub request_headers-keep :
    (cookie : Text) (b : Body) (n : HeaderName) (v : Text) (hs : Headers)
    → get_header n hs ≡ some v
    → get_header n (request_headers cookie b hs) ≡ some v
unfolding request_headers get_header
request_headers-keep cookie b n v hs h = ground arith

-- If the page's cookie has a token and the caller set none, exactly that token is sent.
pub request_headers-csrf :
    (cookie : Text) (b : Body) (token : Text) (hs : Headers)
    → csrf_match cookie ≡ some token
    → get_header csrf_token hs ≡ none
    → get_header csrf_token (request_headers cookie b hs) ≡ some token
unfolding request_headers get_header
request_headers-csrf cookie b token hs found unset = ground arith
