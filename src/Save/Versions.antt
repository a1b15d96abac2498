-- ===== src/Save/Versions.antt =====
-- The vault version that the queue sends as `If-Match` never goes back.
use kypassword_server.Base.{ℕ, ◌≤◌, ◌<◌, List, [], ◌∷◌, ◌≡◌, arith, Result, ok}
use kypassword_server.Save.{Queue, version, upload_result, Event, uploaded, step, run}
use kypassword_server.Json.{Json}
use kypassword_server.Api.{Thrown}

upload_result-lt : (v : ℕ) (r : Result Thrown Json) (w : ℕ) → upload_result v r ≡ ok w → v < w
unfolding upload_result
upload_result-lt v r w h = ground arith

uploaded-version-le :
    (r : Result Thrown Json) (q : Queue) → version q.state ≤ version (uploaded r q).state
unfolding uploaded
uploaded-version-le r q = ground (arith, upload_result-lt (version q.state) r)

step-version-le : (e : Event) (q : Queue) → version q.state ≤ version (step e q).state
unfolding step
step-version-le (Event.upload_ends r) q = uploaded-version-le r q
step-version-le _ q = ground arith

-- Whatever happens to a queue, its version does not decrease.
pub run-version-le : (es : List Event) (q : Queue) → version q.state ≤ version (run es q).state
unfolding run
run-version-le [] q = omega arith
run-version-le (e ∷ es) q = omega (arith, step-version-le e q, run-version-le es (step e q))
