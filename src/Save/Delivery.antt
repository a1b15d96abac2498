-- ===== src/Save/Delivery.antt =====
-- What the server holds when the queue says that the vault is saved. A ghost counts the edits of the
-- vault that `vault` holds, and says how many of them are in the binary under way and in the last one
-- that the server acknowledged.
use kypassword_server.Base.{ℕ, ◌+◌, ◌≤◌, Bool, true, false, ◌≡◌, arith, ok, throw}
use kypassword_server.Json.{Json}
use kypassword_server.Api.{Thrown}
use kypassword_server.Save.{
  Queue, SaveState, saved, Phase, idle, exporting, uploading, version, upload_result, create, Event,
  listen, forget, retry, debounce, close, export_ends, upload_ends, changed, recover_unsaved,
  exported, uploaded, step,
}

pub record World : Type 0 where
  pub queue : Queue
  pub edits : ℕ
  pub shipped : ℕ
  pub stored : ℕ

abbrev pub start : ℕ → World
start v = record { queue = create true v; edits = 0; shipped = 0; stored = 0 }

-- Events that neither edit the vault nor end an `await` with success.
pub data IsQuiet : Event → Type 0 where
  listens : (l : ℕ) → IsQuiet (listen l)
  forgets : (l : ℕ) → IsQuiet (forget l)
  retries : IsQuiet retry
  fires : IsQuiet debounce
  closes : IsQuiet close
  export_fails : (t : Thrown) → IsQuiet (export_ends (throw t))
  upload_fails : (t : Thrown) → IsQuiet (upload_ends (throw t))

-- An edit changes the vault and calls `changed`; edits recovered from a draft count as one. An export
-- may catch edits made while it ran, and the server stores what was exported.
pub data Step : World → World → Type 0 where
  quiet : (w : World) {e : Event} → IsQuiet e → Step w (record w { queue = step e w.queue })
  edited : (w : World) → Step w (record w { queue = changed w.queue; edits = w.edits + 1 })
  recovered :
      (w : World) → Step w (record w { queue = recover_unsaved w.queue; edits = w.edits + 1 })
  exports :
      (w : World) (r c : ℕ)
      → w.queue.phase ≡ exporting r
      → r ≤ c
      → c ≤ w.edits
      → Step w (record w { queue = exported (ok tt) w.queue; shipped = c })
  stores :
      (w : World) (r v : ℕ) (body : Json)
      → w.queue.phase ≡ uploading r
      → upload_result (version w.queue.state) (ok body) ≡ ok v
      → Step w (record w { queue = uploaded (ok body) w.queue; stored = w.shipped })

pub data Reach (s : World) : World → Type 0 where
  here : Reach s s
  next : {t u : World} → Reach s t → Step t u → Reach s u

abbrev pub is_saved : SaveState → Bool
is_saved (saved _) = true
is_saved _ = false

-- What is known of the content while `save` awaits.
abbrev InFlight : Phase → ℕ → ℕ → ℕ → Type 0
InFlight idle done all shipped = Unit
InFlight (exporting r) done all shipped = (done ≤ r) × (r ≤ all)
InFlight (uploading r) done all shipped = (done ≤ r) × (r ≤ shipped) × (shipped ≤ all)

record Inv (w : World) : Type 0 where
  counted : w.queue.aborted ≡ false → w.edits ≡ w.queue.revision
  ahead : w.queue.saved_revision ≤ w.queue.revision
  acknowledged : w.queue.saved_revision ≤ w.stored
  bounded : w.stored ≤ w.edits
  in_flight : InFlight w.queue.phase w.queue.saved_revision w.edits w.shipped
  up_to_date :
      is_saved w.queue.state ≡ true
      → w.queue.aborted ≡ false
      → w.queue.saved_revision ≡ w.queue.revision
  busy : w.queue.running ≡ true → w.queue.aborted ≡ false → is_saved w.queue.state ≡ false

start-Inv : (v : ℕ) → Inv (start v)
unfolding create
start-Inv v = ground arith

Step-Inv : {t u : World} → Step t u → Inv t → Inv u
unfolding step
Step-Inv (quiet w (listens l)) i = ground arith
Step-Inv (quiet w (forgets l)) i = ground arith
Step-Inv (quiet w retries) i = ground arith
Step-Inv (quiet w fires) i = ground arith
Step-Inv (quiet w closes) i = ground arith
Step-Inv (quiet w (export_fails t)) i = ground arith
Step-Inv (quiet w (upload_fails t)) i = ground arith
Step-Inv (edited w) i = ground arith
Step-Inv (recovered w) i = ground arith
Step-Inv (exports w r c p l h) i = ground arith
Step-Inv (stores w r v body p a) i = ground arith

Reach-Inv : (v : ℕ) {w : World} → Reach (start v) w → Inv w
Reach-Inv v here = start-Inv v
Reach-Inv v (next r s) = Step-Inv s (Reach-Inv v r)

-- In every world that a queue can reach from its creation, and that was not discarded: if the queue
-- shows "saved", the server's last acknowledged upload holds every edit of the vault.
pub saved-holds_every_edit :
    (v : ℕ) {w : World}
    → Reach (start v) w
    → w.queue.aborted ≡ false
    → is_saved w.queue.state ≡ true
    → w.stored ≡ w.edits
saved-holds_every_edit v r a s =
    let i = Reach-Inv v r in omega (arith, i.counted a, i.acknowledged, i.bounded, i.up_to_date s a)
