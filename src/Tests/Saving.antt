-- ===== src/Tests/Saving.antt =====
-- Runs of the save queue and of the request helpers.
use kypassword_server.Base.{
  inr, ℕ, Text, codes, or_else, true, some, List, [], ◌∷◌, ◌≡◌, refl, arith, ok, throw, equal,
}
use kypassword_server.Json.{Json, number, natural, object, no_fields, field, member, safe_natural}
use kypassword_server.Api.{
  Thrown, http_error, Response, request_json, to_error_message, content_type, get_header,
  request_headers, text_body,
}
use kypassword_server.Api.Messages.{request_json-message}
use kypassword_server.Api.Headers.{request_headers-keep}
use kypassword_server.Save.{
  saved, create, changed, save, exported, uploaded, upload_result, acknowledge, discard, step, run,
  Event, edit, retry, debounce, export_ends, upload_ends,
}
use kypassword_server.Save.Delivery.{
  World, start, quiet, edited, exports, stores, retries, Reach, here, next, saved-holds_every_edit,
}
use kypassword_server.Save.Failed.{Failed, run-Failed}
use kypassword_server.Save.Discard.{Remains, run-discard}
use kypassword_server.Save.Progress.{Pending, Outcome, edits, save-Outcome}

program : Unit {0}
unfolding step create changed save exported uploaded upload_result acknowledge run discard member
    safe_natural equal
program = tt

-- `{"metadata": {"version": n}}`
abbrev body : ℕ → Json
body n = object (
    field (codes "metadata") (object (field (codes "version") (number (natural n)) no_fields))
      no_fields)

abbrev happy : List Event
happy = edit ∷ debounce ∷ export_ends (ok tt) ∷ upload_ends (ok (body 4)) ∷ []

happy_saves : (run happy (create true 3)).state ≡ saved 4
unfolding program
happy_saves = refl

abbrev edited_once : World
edited_once = record (start 3) { queue = changed (create true 3); edits = 1 }

abbrev running : World
running = record edited_once { queue = step retry (changed (create true 3)) }

abbrev shipping : World
shipping = record running { queue = exported (ok tt) running.queue; shipped = 1 }

abbrev done : World
done = record shipping { queue = uploaded (ok (body 4)) shipping.queue; stored = 1 }

done_reached : Reach (start 3) done
unfolding program
done_reached =
    next
      (next (next (next here (edited (start 3))) (quiet edited_once retries))
        (exports running 1 1 refl (omega arith) (omega arith)))
      (stores shipping 1 4 (body 4) refl refl)

saved-holds_every_edit_example : done.stored ≡ done.edits
unfolding program
saved-holds_every_edit_example = saved-holds_every_edit 3 done_reached refl refl

pending : Pending (changed (create true 3))
unfolding program
pending = record { aborted = refl; unlocked = refl; running = refl; behind = omega arith }

save-Outcome_example :
    Outcome 2 1 4
      (uploaded (ok (body 4)) (run (edits 2) (exported (ok tt) (save (changed (create true 3))))))
unfolding program
save-Outcome_example = save-Outcome (changed (create true 3)) 2 4 (body 4) pending refl

run-discard_example :
    Remains (save (changed (create true 3))) (run happy (discard (save (changed (create true 3)))))
run-discard_example = run-discard (save (changed (create true 3))) happy refl

-- An edit whose save is answered by a conflict.
abbrev attempt : List Event
attempt = edit ∷ debounce ∷ export_ends (ok tt) ∷ []

abbrev conflict : Event
conflict = upload_ends (throw (http_error 409 []))

run-Failed_example :
    Failed
      (step conflict (run attempt (create true 3)))
      (run (edit ∷ debounce ∷ edit ∷ conflict ∷ []) (step conflict (run attempt (create true 3))))
unfolding program
run-Failed_example =
    run-Failed true 3 attempt conflict (edit ∷ debounce ∷ edit ∷ conflict ∷ []) refl refl refl

acknowledges : acknowledge 3 (body 4) ≡ ok 4
unfolding program
acknowledges = refl

abbrev refused : Response
refused = record {
  status = 503;
  status_text = codes "Service Unavailable";
  text = [];
  json = throw (http_error 0 []);
}

request_json-message_example :
    (t : Thrown) × (request_json refused ≡ throw t)
    × (to_error_message t [] ≡ or_else refused.text refused.status_text)
request_json-message_example = request_json-message refused [] (inr (omega arith))

abbrev page_cookie : Text
page_cookie = codes "theme=dark; csrf_token=abc; x=1"

request_headers-keep_example :
    get_header content_type (
      request_headers page_cookie
        (text_body (codes "{}"))
        ((content_type, codes "text/plain") ∷ []))
    ≡ some (codes "text/plain")
unfolding get_header
request_headers-keep_example =
    request_headers-keep page_cookie (text_body (codes "{}")) content_type (codes "text/plain")
      ((content_type, codes "text/plain") ∷ []) refl
