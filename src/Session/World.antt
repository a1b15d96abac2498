-- ===== src/Session/World.antt =====
-- The session with its pending calls of `initVault`, and all that can happen to them.
use kypassword_server.Base.{
  ℕ, zero, suc, ◌+◌, Text, Bool, Option, none, some, List, [], ◌∷◌, Result,
}
use kypassword_server.Api.{Thrown}
use kypassword_server.AutoLock.{IdleDeadline}
use kypassword_server.Crypto.{Bytes}
use kypassword_server.Draft.{Primitives, EntryDraft}
use kypassword_server.Session.{State}
use kypassword_server.Session.Unlock.{Call, Stage, at_checkpoint, Answer}
use kypassword_server.Session.Resume.{resume}
use kypassword_server.Session.Lock.{
  copy_exported, copy_stored, key_removed, handle_lock_vault, handle_logout, user_event, check_idle,
  forget_copy, change_auto_lock, draft_changed,
}

pub record World : Type 0 where
  pub state : State
  pub calls : List Call

-- One stretch of code that runs without interruption.
pub data Event : Type 0 where
  -- `initVault`, with the password or without
  unlock : Text → Event
  -- an await of the call at this place ends, at a time
  answer : ℕ → ℕ → Answer → Event
  lock_button : Bool → Event
  logout_button : Bool → Event
  idle_event : Text → IdleDeadline → ℕ → ℕ → Event
  idle_check : Text → IdleDeadline → ℕ → ℕ → Event
  copy_export_ends : Bytes → Result Thrown Bytes → Event
  copy_store_ends : Bool → Event
  key_removal_ends : Bool → Event
  forget_ends : Event
  minutes_set : ℕ → Event
  draft_set : Option EntryDraft → Event

-- `masterPassword`; the empty text counts as none.
abbrev pub password_of : Text → Option Text
password_of [] = none
password_of (c ∷ t) = some (c ∷ t)

-- `initVault` up to its first `await`.
unfoldable pub init_vault : Text → World → World
init_vault password w =
    let generation = w.state.unlock_generation + 1 in
    record {
      state = record w.state { unlock_generation = generation };
      calls =
          record { generation = generation; password = password_of password; stage = at_checkpoint }
          ∷ w.calls;
    }

abbrev pub put_back : Call → Option Stage → List Call → List Call
put_back c none cs = cs
put_back c (some stage) cs = record c { stage = stage } ∷ cs

module _ (p : Primitives) (account : Text) (open_vault : Bytes → Bytes → Result Thrown Bytes) where
  unfoldable pub answer_call : ℕ → ℕ → Answer → List Call → State → State × List Call
  unfolding resume
  answer_call n now a [] s = (s, [])
  answer_call zero now a (c ∷ cs) s =
      let next = resume p account open_vault c now c.stage a s in (next.0, put_back c next.1 cs)
  answer_call (suc n) now a (c ∷ cs) s = let rest = answer_call n now a cs s in (rest.0, c ∷ rest.1)

  abbrev with_state : World → State → World
  with_state w s = record w { state = s }

  unfoldable pub step : Event → World → World
  unfolding init_vault answer_call handle_lock_vault handle_logout user_event check_idle
      copy_exported copy_stored key_removed forget_copy change_auto_lock draft_changed
  step (unlock password) w = init_vault password w
  step (answer n now a) w =
      let next = answer_call n now a w.calls w.state in record { state = next.0; calls = next.1 }
  step (lock_button confirmed) w = with_state w (handle_lock_vault confirmed w.state)
  step (logout_button confirmed) w = with_state w (handle_logout confirmed w.state)
  step (idle_event id d wall monotonic) w = with_state w (user_event id d wall monotonic w.state).2
  step (idle_check id d wall monotonic) w = with_state w (check_idle id d wall monotonic w.state)
  step (copy_export_ends iv exported) w = with_state w (copy_exported p account iv exported w.state)
  step (copy_store_ends done) w = with_state w (copy_stored done w.state)
  step (key_removal_ends done) w = with_state w (key_removed done w.state)
  step forget_ends w = with_state w (forget_copy w.state)
  step (minutes_set minutes) w = with_state w (change_auto_lock minutes w.state)
  step (draft_set d) w = with_state w (draft_changed d w.state)

  unfoldable pub run : List Event → World → World
  unfolding step
  run [] w = w
  run (e ∷ es) w = run es (step e w)
