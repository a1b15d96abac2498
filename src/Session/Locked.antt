-- ===== src/Session/Locked.antt =====
-- A locked vault: what pending and new calls of `initVault` can do to it.
pub mod Events
use kypassword_server.Session.Lock.{
  auto_lock, copy_exported, copy_stored, key_removed, handle_lock_vault, handle_logout, user_event,
  check_idle, forget_copy, change_auto_lock, draft_changed, record_activity, confirm_discard_vault,
  seal_at, stored_at, removed_at, after_activity,
}
use kypassword_server.AutoLock.{IdleDeadline, expired, activity}
use kypassword_server.Session.World.{
  World, Event, put_back, step, run, unlock, init_vault, answer_call,
}
use kypassword_server.Base.{
  some, ℕ, Text, false, ◌≡◌, arith, Result, none, ◌||◌, Option, suc, zero, ◌+◌, ltb, leb, all, List,
  [], ◌∷◌, Bool-cases, refl, ◌&&◌, not, inl, inr, &&-true, true, Bool,
}
use kypassword_server.Api.{Thrown}
use kypassword_server.Crypto.{Bytes}
use kypassword_server.Draft.{Primitives, EntryDraft}
use kypassword_server.Session.{
  trust_of, trust_at, trust, Trust, State, trusted, close_vault, set_save_queue,
}
use kypassword_server.Session.Unlock.{
  Call, Stage, at_checkpoint, at_metadata, at_creation, at_final_clear, at_upload, at_new_key_store,
  at_unwrap, at_cached_key, at_download, at_draft, at_open, at_key_store, at_removal, Answer,
  is_current, failed, finish, store_key, clear_key, show_unlock, begin, ask_device,
}
use kypassword_server.Session.Resume.{resume}
use kypassword_server.Session.Locked.Events.{
  Same, is_early, ends_early, flagged, trust-flagged, without_password, is_shut, Shut,
  put_back_shut, no_password, Same-refl, is_without_password, Same-Shut, init_vault-Shut,
  closed-Shut, handle_lock_vault-Shut, handle_logout-Shut, change_auto_lock-Same,
  draft_changed-Same, user_event-Same, check_idle-Same, copy_stored-Same, key_removed-Same,
  forget_copy-Same, is_valid, older_shut,
}

module _ (p : Primitives) (account : Text) (open_vault : Bytes → Bytes → Result Thrown Bytes) where
  -- A call of an earlier generation opens nothing.
  resume-Same_stale :
      (c : Call) (now : ℕ) (stage : Stage) (a : Answer) (s : State)
      → is_current c s ≡ false
      → Same s (resume p account open_vault c now stage a s).0
  unfolding resume failed show_unlock store_key clear_key is_current finish
  resume-Same_stale c now at_checkpoint a s h = ground arith
  resume-Same_stale c now at_metadata a s h = ground arith
  resume-Same_stale c now at_creation a s h = ground arith
  resume-Same_stale c now at_final_clear a s h = ground arith
  resume-Same_stale c now (at_upload key v) a s h = ground arith
  resume-Same_stale c now (at_new_key_store key v n) a s h = ground arith
  resume-Same_stale c now (at_unwrap m) a s h = ground arith
  resume-Same_stale c now (at_cached_key m) a s h = ground arith
  resume-Same_stale c now (at_download m key) a s h = ground arith
  resume-Same_stale c now (at_draft m key kdbx) a s h = ground arith
  resume-Same_stale c now (at_open m key kdbx r) a s h = ground arith
  resume-Same_stale c now (at_key_store o) a s h = ground arith
  resume-Same_stale c now (at_removal o) a s h = ground arith

  -- A call without a password gets no further than the check of the flag.
  resume-Same_early :
      (c : Call) (now : ℕ) (stage : Stage) (a : Answer) (s : State)
      → c.password ≡ none
      → is_early stage ≡ true
      → flagged s ≡ true
      → Same s (resume p account open_vault c now stage a s).0
        × (ends_early (resume p account open_vault c now stage a s).1 ≡ true)
  unfolding resume failed show_unlock clear_key is_current begin ask_device
  resume-Same_early c now at_checkpoint a s none_given e h = ground arith
  resume-Same_early c now at_metadata a s none_given e h = ground (arith, trust-flagged s now h)
  resume-Same_early c now at_final_clear a s none_given e h = ground arith
  resume-Same_early c now _ a s none_given e h = cc

  resume_shut :
      (c : Call) (now : ℕ) (a : Answer) (s : State)
      → flagged s ≡ true
      → is_shut s.unlock_generation c ≡ true
      → Same s (resume p account open_vault c now c.stage a s).0
        × ((ltb c.generation s.unlock_generation
              || (without_password c.password
                  && ends_early (resume p account open_vault c now c.stage a s).1))
            ≡ true)
  unfolding is_shut
  resume_shut c now a s h shut = elim (Bool-cases (ltb c.generation s.unlock_generation)) [
    | inl old ↦ (resume-Same_stale c now c.stage a s (unfold is_current in ground arith), rw (old))
    | inr new ↦
        let given : without_password c.password ≡ true = ground arith in
        let early : is_early c.stage ≡ true = ground arith in
        let same = resume-Same_early c now c.stage a s (no_password c.password given) early h in
        (same.0, rw (new, given, same.1))
  ]

  answer_call_shut :
      (n now : ℕ) (a : Answer) (cs : List Call) (s : State)
      → flagged s ≡ true
      → all (is_shut s.unlock_generation) cs ≡ true
      → Same s (answer_call p account open_vault n now a cs s).0
        × (all (is_shut s.unlock_generation) (answer_call p account open_vault n now a cs s).1
            ≡ true)
  unfolding answer_call
  answer_call_shut n now a [] s h shut = (Same-refl s, refl)
  answer_call_shut zero now a (c ∷ cs) s h shut =
      let both = &&-true _ _ shut in
      let after = resume_shut c now a s h both.0 in
      (after.0, put_back_shut s.unlock_generation c _ cs after.1 both.1)
  answer_call_shut (suc n) now a (c ∷ cs) s h shut =
      let both = &&-true (is_shut s.unlock_generation c) _ shut in
      let rest = answer_call_shut n now a cs s h both.1 in (rest.0, rw (both.0, rest.1))

  checkpoint-Same :
      (iv : Bytes) (x : Result Thrown Bytes) (s : State) → Same s (copy_exported p account iv x s)
  unfolding copy_exported seal_at
  checkpoint-Same iv x s = ground arith

  step-Shut :
      (e : Event) (w : World)
      → is_without_password e ≡ true
      → Shut w
      → Shut (step p account open_vault e w)
  unfolding step
  step-Shut (unlock []) w h i = init_vault-Shut w i
  step-Shut (unlock (_ ∷ _)) w h i = cc
  step-Shut (Event.answer n now a) w h i =
      let after = answer_call_shut n now a w.calls w.state i.flag i.calls in
      Same-Shut w _ _ after.0 i after.1
  step-Shut (Event.lock_button b) w h i = handle_lock_vault-Shut b w i
  step-Shut (Event.logout_button b) w h i = handle_logout-Shut b w i
  step-Shut (Event.idle_event id d x y) w h i =
      Same-Shut w _ w.calls (user_event-Same id d x y w.state i.vault) i i.calls
  step-Shut (Event.idle_check id d x y) w h i =
      Same-Shut w _ w.calls (check_idle-Same id d x y w.state i.vault) i i.calls
  step-Shut (Event.copy_export_ends iv x) w h i =
      Same-Shut w _ w.calls (checkpoint-Same iv x w.state) i i.calls
  step-Shut (Event.copy_store_ends d) w h i =
      Same-Shut w _ w.calls (copy_stored-Same d w.state) i i.calls
  step-Shut (Event.key_removal_ends d) w h i =
      Same-Shut w _ w.calls (key_removed-Same d w.state) i i.calls
  step-Shut Event.forget_ends w h i = Same-Shut w _ w.calls (forget_copy-Same w.state) i i.calls
  step-Shut (Event.minutes_set m) w h i =
      Same-Shut w _ w.calls (change_auto_lock-Same m w.state) i i.calls
  step-Shut (Event.draft_set d) w h i =
      Same-Shut w _ w.calls (draft_changed-Same d w.state) i i.calls

  run-Shut :
      (es : List Event) (w : World)
      → all is_without_password es ≡ true
      → Shut w
      → Shut (run p account open_vault es w)
  unfolding run
  run-Shut [] w h i = i
  run-Shut (e ∷ es) w h i =
      let both = &&-true (is_without_password e) _ h in
      run-Shut es (step p account open_vault e w) both.1 (step-Shut e w both.0 i)

  -- Once the vault is closed, it stays closed, with no key and no queue, whatever answers the pending
  -- calls get, whatever else happens and however often `initVault` is called without a password: only
  -- an unlock with a password can open it again.
  pub run-close_vault :
      (w : World) (es : List Event)
      → is_valid w ≡ true
      → all is_without_password es ≡ true
      → let t = run p account open_vault es (record w { state = close_vault w.state }) in
        (t.state.vault ≡ none) × (t.state.vault_key ≡ none) × (t.state.save_queue ≡ none)
  run-close_vault w es valid h =
      let i =
        run-Shut es (record w { state = close_vault w.state }) h
          (closed-Shut w (older_shut w.state.unlock_generation w.calls valid)) in
      (i.vault, i.vault_key, i.save_queue)
