-- ===== src/Save/Discard.antt =====
-- A queue of frontend/src/lib/vaultSave.ts that was discarded, over any later events.
use kypassword_server.Base.{Bool, ◌||◌, true, false, List, [], ◌∷◌, ◌≡◌, ◌⊎◌, arith}
use kypassword_server.Save.{Queue, idle, Event, recover, discard, step, run}

abbrev is_recover : Event → Bool
is_recover recover = true
is_recover _ = false

abbrev pub has_recover : List Event → Bool
has_recover [] = false
has_recover (e ∷ es) = is_recover e || has_recover es

-- `r` is what is left of `q`, discarded: it awaits what `q` awaited, or nothing more.
pub record Remains (q r : Queue) : Type 0 where
  pub aborted : r.aborted ≡ true
  pub timer : r.timer ≡ false
  pub state : r.state ≡ q.state
  pub revision : r.revision ≡ q.revision
  pub saved_revision : r.saved_revision ≡ q.saved_revision
  pub phase : (r.phase ≡ q.phase) ⊎ (r.phase ≡ idle)

step-Remains : (q r : Queue) (e : Event) → is_recover e ≡ false → Remains q r → Remains q (step e r)
unfolding step
step-Remains q r (Event.upload_ends x) h i = ground arith
step-Remains q r _ h i = ground arith

run-Remains :
    (q r : Queue) (es : List Event) → has_recover es ≡ false → Remains q r → Remains q (run es r)
unfolding run
run-Remains q r [] h i = i
run-Remains q r (e ∷ es) h i =
    run-Remains q (step e r) es (ground arith) (step-Remains q r e (ground arith) i)

-- After `discard`, whatever edits, retries, timers and answers follow, the queue stays aborted, shows
-- the state and counts the revisions that it had, sets no timer, and starts no export and no upload.
pub run-discard :
    (q : Queue) (es : List Event) → has_recover es ≡ false → Remains q (run es (discard q))
unfolding discard
run-discard q es h = run-Remains q (discard q) es h (ground arith)
