-- ===== src/Save/Failed.antt =====
-- A queue of frontend/src/lib/vaultSave.ts whose save failed, over any earlier and later events.
use kypassword_server.Base.{
  ℕ, Bool, true, false, not, ◌&&◌, ◌||◌, List, [], ◌∷◌, ◌≡◌, refl, arith, Result, ok, throw,
}
use kypassword_server.Api.{Thrown}
use kypassword_server.Save.{
  Queue, Phase, idle, exporting, uploading, Event, retry, recover, create, version, upload_result,
  step, run, is_error,
}

abbrev is_idle : Phase → Bool
is_idle idle = true
is_idle _ = false

-- What holds of every queue: no timer is set while `save` runs, and `save` runs while it awaits something.
record Calm (q : Queue) : Type 0 where
  timer : (q.running && q.timer) ≡ false
  phase : (is_idle q.phase || q.running) ≡ true

step-Calm : (e : Event) (q : Queue) → Calm q → Calm (step e q)
unfolding step
step-Calm (Event.upload_ends r) q i = ground arith
step-Calm (Event.export_ends r) q i = ground arith
step-Calm _ q i = ground arith

run-Calm : (es : List Event) (q : Queue) → Calm q → Calm (run es q)
unfolding run
run-Calm [] q i = i
run-Calm (e ∷ es) q i = run-Calm es (step e q) (step-Calm e q i)

create-Calm : (u : Bool) (v : ℕ) → Calm (create u v)
unfolding create
create-Calm u v = record { timer = refl; phase = refl }

abbrev is_throw {ℓ} : {A : Type ℓ} → Result Thrown A → Bool
is_throw (ok _) = false
is_throw (throw _) = true

-- What `save` awaits ends without a result: the export throws or finds no vault, or the upload throws or
-- is not acknowledged.
abbrev fails_at : Phase → Queue → Event → Bool
fails_at (exporting _) q (Event.export_ends (throw _)) = true
fails_at (exporting _) q (Event.export_ends (ok _)) = not q.unlocked
fails_at (uploading _) q (Event.upload_ends r) = is_throw (upload_result (version q.state) r)
fails_at _ q e = false

abbrev pub fails : Queue → Event → Bool
fails q e = fails_at q.phase q e

abbrev is_restart : Event → Bool
is_restart retry = true
is_restart recover = true
is_restart _ = false

-- A retry or a recovery of unsaved edits is among the events.
abbrev pub has_restart : List Event → Bool
has_restart [] = false
has_restart (e ∷ es) = is_restart e || has_restart es

-- `r` is `q`, at rest in its error: nothing is under way and no timer is set.
pub record Failed (q r : Queue) : Type 0 where
  pub state : r.state ≡ q.state
  pub is_error : is_error q.state ≡ true
  pub running : r.running ≡ false
  pub timer : r.timer ≡ false
  pub phase : r.phase ≡ idle
  pub saved_revision : r.saved_revision ≡ q.saved_revision

step-Failed-fails :
    (q : Queue) (e : Event)
    → Calm q
    → q.aborted ≡ false
    → fails q e ≡ true
    → Failed (step e q) (step e q)
unfolding step
step-Failed-fails q (Event.upload_ends r) i a h = ground arith
step-Failed-fails q (Event.export_ends r) i a h = ground arith
step-Failed-fails q _ i a h = absurd (ground arith)

step-Failed : (q r : Queue) (e : Event) → is_restart e ≡ false → Failed q r → Failed q (step e r)
unfolding step
step-Failed q r (Event.upload_ends x) h i = ground arith
step-Failed q r _ h i = ground arith

run-Failed_from :
    (q r : Queue) (es : List Event) → has_restart es ≡ false → Failed q r → Failed q (run es r)
unfolding run
run-Failed_from q r [] h i = i
run-Failed_from q r (e ∷ es) h i =
    run-Failed_from q (step e r) es (ground arith) (step-Failed q r e (ground arith) i)

-- Whatever happened to a new queue before: when a save of it fails that was not aborted, the queue shows
-- an error. From then on, whatever edits, timers, listeners, answers or closing follow, it keeps
-- showing this error, has no timer set, runs no save, awaits nothing and counts no further revision as
-- saved, as long as there is no retry and no recovery of unsaved edits.
pub run-Failed :
    (unlocked : Bool) (v : ℕ) (before : List Event) (e : Event) (after : List Event)
    → (run before (create unlocked v)).aborted ≡ false
    → fails (run before (create unlocked v)) e ≡ true
    → has_restart after ≡ false
    → Failed
        (step e (run before (create unlocked v)))
        (run after (step e (run before (create unlocked v))))
run-Failed unlocked v before e after a h quiet =
    let q = run before (create unlocked v) in
    let calm = run-Calm before (create unlocked v) (create-Calm unlocked v) in
    run-Failed_from (step e q) (step e q) after quiet (step-Failed-fails q e calm a h)
