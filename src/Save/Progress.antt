-- ===== src/Save/Progress.antt =====
-- A save that meets no failure ends, and leaves no edit behind.
use kypassword_server.Base.{ℕ, zero, suc, ◌+◌, ◌<◌, true, false, List, [], ◌∷◌, ◌≡◌, arith, ok}
use kypassword_server.Json.{Json}
use kypassword_server.Save.{
  Queue, idle, exporting, uploading, saved, saving, version, upload_result, Event, edit, changed,
  save, exported, uploaded, step, run,
}

-- A live queue with edits to save, before `save` runs.
pub record Pending (q : Queue) : Type 0 where
  pub aborted : q.aborted ≡ false
  pub unlocked : q.unlocked ≡ true
  pub running : q.running ≡ false
  pub behind : q.saved_revision < q.revision

-- The queue awaits the upload of revision `r`, and `n` edits came after that revision.
pub record Uploads (r n v : ℕ) (q : Queue) : Type 0 where
  pub aborted : q.aborted ≡ false
  pub unlocked : q.unlocked ≡ true
  pub running : q.running ≡ true
  pub phase : q.phase ≡ uploading r
  pub revision : q.revision ≡ r + n
  pub version_is : version q.state ≡ v

-- `save` and a finished export stand at the upload of everything edited so far.
save-Uploads :
    (q : Queue) → Pending q → Uploads q.revision 0 (version q.state) (exported (ok tt) (save q))
unfolding save exported
save-Uploads q p = ground arith

changed-Uploads : (r n v : ℕ) (q : Queue) → Uploads r n v q → Uploads r (suc n) v (changed q)
unfolding changed
changed-Uploads r n v q u = ground arith

abbrev pub edits : ℕ → List Event
edits zero = []
edits (suc n) = edit ∷ edits n

edits-Uploads :
    (k r n m v : ℕ) (q : Queue) → k + n ≡ m → Uploads r n v q → Uploads r m v (run (edits k) q)
unfolding run step
edits-Uploads zero r n m v q e u = let e' : n ≡ m = omega arith in rw (← e') u
edits-Uploads (suc k) r n m v q e u =
    edits-Uploads k r (suc n) m v (changed q) (omega arith) (changed-Uploads r n v q u)

-- How the queue stands when the upload is confirmed with version `w`: at rest and saved if no edit came
-- in between, else at the export of all edits so far.
abbrev pub Outcome : ℕ → ℕ → ℕ → Queue → Type 0
Outcome zero r w q =
    (q.state ≡ saved w) × (q.running ≡ false) × (q.phase ≡ idle) × (q.saved_revision ≡ q.revision)
Outcome (suc n) r w q =
    (q.state ≡ saving w)
    × (q.running ≡ true)
    × (q.phase ≡ exporting (r + suc n))
    × (q.saved_revision ≡ r)

uploaded-Outcome :
    (n r v w : ℕ) (body : Json) (q : Queue)
    → Uploads r n v q
    → upload_result v (ok body) ≡ ok w
    → Outcome n r w (uploaded (ok body) q)
unfolding uploaded
uploaded-Outcome zero r v w body q u h = ground arith
uploaded-Outcome (suc n) r v w body q u h = ground arith

-- From a live queue with unsaved edits: `save`, a finished export, `n` edits and a confirmed upload
-- leave the queue saved and at rest if `n` is 0, and else saving again, with all edits in the next
-- export.
pub save-Outcome :
    (q : Queue) (n w : ℕ) (body : Json)
    → Pending q
    → upload_result (version q.state) (ok body) ≡ ok w
    → Outcome n q.revision w (uploaded (ok body) (run (edits n) (exported (ok tt) (save q))))
save-Outcome q n w body p h =
    uploaded-Outcome n q.revision (version q.state) w body _
      (edits-Uploads n q.revision 0 n (version q.state) _ (omega arith) (save-Uploads q p)) h
