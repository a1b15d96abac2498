-- ===== src/Dialog/History/Requests.antt =====
-- The requests of frontend/src/components/HistoryModal.tsx, over any events.
use kypassword_server.Base.{
  Text, Bool, false, Option, none, some, List, [], ◌∷◌, ◌≡◌, refl, arith, ◌++◌, Result, ok, throw,
  ◌∙◌,
}
use kypassword_server.Api.{Thrown}
use kypassword_server.Dialog.History.{
  HistoryModal, World, Event, Reaches, Request, request_id, restore_snapshot, discard_conflict,
  answered, step, load_data, data_loaded, answer_first, HistoryEntry, ConflictEntry,
}

-- What waits when the dialog is busy with an id.
abbrev pub WaitsFor : Option Text → List Request → Type 0
WaitsFor none [] = Unit
WaitsFor none (q ∷ qs) = ⊥
WaitsFor (some id) [] = ⊥
WaitsFor (some id) (q ∷ []) = request_id q ≡ id
WaitsFor (some id) (q ∷ _ ∷ qs) = ⊥

restore_snapshot-WaitsFor :
    (allow confirmed : Bool) (id : Text) (s : HistoryModal) (qs : List Request)
    → WaitsFor s.busy_id qs
    → WaitsFor
        (restore_snapshot allow confirmed id s).0.busy_id
        (qs ++ (restore_snapshot allow confirmed id s).1)
unfolding restore_snapshot
restore_snapshot-WaitsFor allow confirmed id s [] h = ground arith
restore_snapshot-WaitsFor allow confirmed id s (q ∷ []) h = ground arith
restore_snapshot-WaitsFor allow confirmed id s (q ∷ _ ∷ qs) h = ground arith

discard_conflict-WaitsFor :
    (allow confirmed : Bool) (id : Text) (s : HistoryModal) (qs : List Request)
    → WaitsFor s.busy_id qs
    → WaitsFor
        (discard_conflict allow confirmed id s).0.busy_id
        (qs ++ (discard_conflict allow confirmed id s).1)
unfolding discard_conflict
discard_conflict-WaitsFor allow confirmed id s [] h = ground arith
discard_conflict-WaitsFor allow confirmed id s (q ∷ []) h = ground arith
discard_conflict-WaitsFor allow confirmed id s (q ∷ _ ∷ qs) h = ground arith

answered-busy_id :
    (q : Request) (r : Result Thrown (Unit {0})) (s : HistoryModal)
    → (answered q r s).busy_id ≡ none
unfolding answered
answered-busy_id (Request.restore id) (ok _) s = refl
answered-busy_id (Request.restore id) (throw e) s = refl
answered-busy_id (Request.discard id) (ok _) s = refl
answered-busy_id (Request.discard id) (throw e) s = refl

answer_first-WaitsFor :
    (busy : Option Text) (qs : List Request) (r : Result Thrown (Unit {0})) (w : World)
    → w.modal.busy_id ≡ busy
    → w.pending ≡ qs
    → WaitsFor busy qs
    → WaitsFor (answer_first qs r w).modal.busy_id (answer_first qs r w).pending
answer_first-WaitsFor none [] r w b p h = rw (b, p) tt
answer_first-WaitsFor (some id) (q ∷ []) r w b p h = rw (answered-busy_id q r w.modal) tt
answer_first-WaitsFor none (q ∷ qs) r w b p h = absurd h
answer_first-WaitsFor (some id) [] r w b p h = absurd h
answer_first-WaitsFor (some id) (q ∷ _ ∷ qs) r w b p h = absurd h

data_loaded-busy_id :
    (r : Result Thrown (Option (List HistoryEntry) × Option (List ConflictEntry)))
    (s : HistoryModal)
    → (data_loaded r s).busy_id ≡ s.busy_id
unfolding data_loaded
data_loaded-busy_id (ok r) s = refl
data_loaded-busy_id (throw e) s = refl

step-WaitsFor :
    (allow : Bool) (e : Event) (w : World)
    → WaitsFor w.modal.busy_id w.pending
    → WaitsFor (step allow e w).modal.busy_id (step allow e w).pending
unfolding step load_data
step-WaitsFor allow (Event.clicks_restore c id) w h =
    restore_snapshot-WaitsFor allow c id w.modal w.pending h
step-WaitsFor allow (Event.clicks_discard c id) w h =
    discard_conflict-WaitsFor allow c id w.modal w.pending h
step-WaitsFor allow (Event.answers r) w h =
    answer_first-WaitsFor w.modal.busy_id w.pending r w refl refl h
step-WaitsFor allow Event.loads w h = h
step-WaitsFor allow (Event.ends_load r) w h = rw (data_loaded-busy_id r w.modal) h

answer_first-sent :
    (qs : List Request) (r : Result Thrown (Unit {0})) (w : World)
    → (answer_first qs r w).sent ≡ w.sent
answer_first-sent [] r w = refl
answer_first-sent (q ∷ qs) r w = refl

step-sent : (e : Event) (w : World) → w.sent ≡ [] → (step false e w).sent ≡ []
unfolding step restore_snapshot discard_conflict
step-sent (Event.clicks_restore c id) w h = rw (h)
step-sent (Event.clicks_discard c id) w h = rw (h)
step-sent (Event.answers r) w h = answer_first-sent w.pending r w ∙ h
step-sent Event.loads w h = h
step-sent (Event.ends_load r) w h = h

-- Whatever is clicked and answered since the dialog was opened, and however the permission to roll back
-- changes meanwhile, the dialog waits for one request at most, it is busy exactly while one waits, with
-- the id of that request, and if a rollback was never allowed it has sent nothing.
pub Reaches-WaitsFor :
    (ever : Bool) (w : World)
    → Reaches ever w
    → WaitsFor w.modal.busy_id w.pending × (ever ≡ false → w.sent ≡ [])
Reaches-WaitsFor _ _ Reaches.opens = (tt, λ _. refl)
Reaches-WaitsFor _ _ (Reaches.follows {ever} {w} allow e r) =
    let before = Reaches-WaitsFor ever w r in
    (
      step-WaitsFor allow e w before.0,
      λ no.
          let never : ever ≡ false = ground arith in
          let now : allow ≡ false = ground arith in rw (now) (step-sent e w (before.1 never)),
    )
