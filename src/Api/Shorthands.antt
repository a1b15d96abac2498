-- ===== src/Api/Shorthands.antt =====
-- The calls of frontend/src/lib/api.ts that the pages make: what each hands to `request`. `stringify` stands
-- for `JSON.stringify`.
use kypassword_server.Base.{Text, Bool, true, false, Result, ◌>>=◌}
use kypassword_server.Api.{Thrown, Body, no_body, text_body, Response, check_response}

pub data Method : Type 0 where
  get post put delete : Method

pub record Request : Type 0 where
  pub path : Text
  pub method : Method
  pub body : Body
  -- `cache: "no-store"`, and whether an abort signal is passed
  pub no_store : Bool
  pub has_signal : Bool

abbrev plain_request : Text → Method → Body → Request
plain_request path method body = record {
  path = path;
  method = method;
  body = body;
  no_store = false;
  has_signal = false;
}

unfoldable pub get_json : Text → Request
get_json path = plain_request path get no_body

unfoldable pub post_json : {A : Type 0} → (A → Text) → Text → A → Request
post_json stringify path body = plain_request path post (text_body (stringify body))

unfoldable pub put_json : {A : Type 0} → (A → Text) → Text → A → Request
put_json stringify path body = plain_request path put (text_body (stringify body))

unfoldable pub delete_json : Text → Request
delete_json path = plain_request path delete no_body

unfoldable pub get_binary : Text → Request
get_binary path = record (plain_request path get no_body) { no_store = true; has_signal = true }

-- The end of `getBinary` and of `postBlob`, with the reading of the body.
unfoldable pub read_binary :
    {A : Type 0} → (Response → Result Thrown A) → Response → Result Thrown A
unfolding check_response
read_binary read response = do r ← check_response response; read r

unfoldable pub post_blob : Text → Request
post_blob path = plain_request path post no_body
