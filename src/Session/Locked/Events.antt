-- ===== src/Session/Locked/Events.antt =====
-- Worlds whose vault is shut and stays so, apart from the answers to pending calls.
use kypassword_server.Session.Lock.{
  auto_lock, copy_stored, key_removed, handle_lock_vault, handle_logout, user_event, check_idle,
  forget_copy, change_auto_lock, draft_changed, record_activity, confirm_discard_vault, stored_at,
  removed_at, after_activity,
}
use kypassword_server.AutoLock.{IdleDeadline, expired, activity}
use kypassword_server.Session.World.{World, Event, put_back, unlock, init_vault}
use kypassword_server.Base.{
  some, ℕ, Text, false, ◌≡◌, arith, none, ◌||◌, Option, ◌+◌, ltb, leb, all, List, [], ◌∷◌,
  Bool-cases, refl, ◌&&◌, not, inl, inr, &&-true, true, Bool,
}
use kypassword_server.Draft.{EntryDraft}
use kypassword_server.Session.{
  trust_of, trust_at, trust, Trust, State, trusted, close_vault, set_save_queue,
}
use kypassword_server.Session.Unlock.{Call, Stage, at_checkpoint, at_metadata, at_final_clear}

-- What `t` has of `s`.
pub record Same (s t : State) : Type 0 where
  pub vault : t.vault ≡ s.vault
  pub vault_key : t.vault_key ≡ s.vault_key
  pub save_queue : t.save_queue ≡ s.save_queue
  pub unlock_generation : t.unlock_generation ≡ s.unlock_generation
  pub works : t.session.works ≡ s.session.works
  pub locked : t.session.locked ≡ s.session.locked

abbrev pub is_early : Stage → Bool
is_early at_checkpoint = true
is_early at_metadata = true
is_early at_final_clear = true
is_early _ = false

abbrev pub ends_early : Option Stage → Bool
ends_early none = true
ends_early (some stage) = is_early stage

abbrev pub is_trusted : Trust → Bool
is_trusted trusted = true
is_trusted _ = false

-- The flag of the session is set, or cannot be read.
abbrev pub flagged : State → Bool
flagged s = not s.session.works || s.session.locked

pub trust-flagged : (s : State) (now : ℕ) → flagged s ≡ true → is_trusted (trust true s now) ≡ false
unfolding trust trust_at trust_of
trust-flagged s now h = ground arith

abbrev pub without_password : Option Text → Bool
without_password none = true
without_password (some _) = false

-- A call that cannot open the vault: of an earlier generation, or without a password and before the
-- check of the flag.
unfoldable pub is_shut : ℕ → Call → Bool
is_shut generation c =
    ltb c.generation generation || (without_password c.password && is_early c.stage)

-- A locked world.
pub record Shut (w : World) : Type 0 where
  pub vault : w.state.vault ≡ none
  pub vault_key : w.state.vault_key ≡ none
  pub save_queue : w.state.save_queue ≡ none
  pub flag : flagged w.state ≡ true
  pub calls : all (is_shut w.state.unlock_generation) w.calls ≡ true

pub put_back_shut :
    (g : ℕ) (c : Call) (o : Option Stage) (cs : List Call)
    → (ltb c.generation g || (without_password c.password && ends_early o)) ≡ true
    → all (is_shut g) cs ≡ true
    → all (is_shut g) (put_back c o cs) ≡ true
put_back_shut g c none cs h a = a
put_back_shut g c (some stage) cs h a =
    let first : is_shut g (record c { stage = stage }) ≡ true = unfold is_shut in h in rw (first, a)

pub no_password : (o : Option Text) → without_password o ≡ true → o ≡ none
no_password none h = refl
no_password (some _) h = cc

pub Same-refl : (s : State) → Same s s
Same-refl s = record {
  vault = refl;
  vault_key = refl;
  save_queue = refl;
  unlock_generation = refl;
  works = refl;
  locked = refl;
}

-- Every event but an unlock with a password.
abbrev pub is_without_password : Event → Bool
is_without_password (unlock []) = true
is_without_password (unlock (_ ∷ _)) = false
is_without_password _ = true

pub or-true : (b : Bool) → ((b || true) && true) ≡ true
or-true true = refl
or-true false = refl

pub or_true : (b : Bool) → (b || true) ≡ true
or_true true = refl
or_true false = refl

pub weaker_is_shut : (g : ℕ) (c : Call) → is_shut g c ≡ true → is_shut (g + 1) c ≡ true
unfolding is_shut
weaker_is_shut g c h = elim (Bool-cases (ltb c.generation g)) [
  | inl old ↦ let newer : ltb c.generation (g + 1) ≡ true = ground arith in rw (newer)
  | inr new ↦ let late = rw (new) at h in rw (late) (or_true _)
]

pub weaker_shut :
    (g : ℕ) (cs : List Call) → all (is_shut g) cs ≡ true → all (is_shut (g + 1)) cs ≡ true
weaker_shut g [] h = refl
weaker_shut g (c ∷ cs) h =
    let both = &&-true (is_shut g c) _ h in rw (weaker_is_shut g c both.0, weaker_shut g cs both.1)

pub Same-Shut :
    (w : World) (t : State) (cs : List Call)
    → Same w.state t
    → Shut w
    → all (is_shut w.state.unlock_generation) cs ≡ true
    → Shut (record { state = t; calls = cs })
Same-Shut w t cs s i shut = record {
  vault = rw (s.vault, i.vault);
  vault_key = rw (s.vault_key, i.vault_key);
  save_queue = rw (s.save_queue, i.save_queue);
  flag = rw (s.works, s.locked) i.flag;
  calls = rw (s.unlock_generation) shut;
}

pub init_vault-Shut : (w : World) → Shut w → Shut (init_vault [] w)
unfolding init_vault is_shut
init_vault-Shut w i = record {
  vault = i.vault;
  vault_key = i.vault_key;
  save_queue = i.save_queue;
  flag = i.flag;
  calls = rw (weaker_shut w.state.unlock_generation w.calls i.calls) (or-true _);
}

pub closed-Shut :
    (w : World)
    → all (is_shut (w.state.unlock_generation + 1)) w.calls ≡ true
    → Shut (record { state = close_vault w.state; calls = w.calls })
unfolding close_vault set_save_queue
closed-Shut w h = record {
  vault = refl;
  vault_key = refl;
  save_queue = refl;
  flag = ground arith;
  calls = h;
}

pub shown-Same : (s : State) → Same s (record s { show_unlock_modal = true })
shown-Same s = ground arith

pub handle_lock_vault-Shut :
    (b : Bool) (w : World) → Shut w → Shut (record w { state = handle_lock_vault b w.state })
unfolding handle_lock_vault
handle_lock_vault-Shut b w i = elim (Bool-cases (confirm_discard_vault b w.state)) [
  | inl y ↦
      let closed = closed-Shut w (weaker_shut w.state.unlock_generation w.calls i.calls) in
      rw (y) (
        Same-Shut (record { state = close_vault w.state; calls = w.calls })
          (record (close_vault w.state) { show_unlock_modal = true }) w.calls
          (shown-Same (close_vault w.state)) closed closed.calls)
  | inr n ↦ rw (n) i
]

pub handle_logout-Shut :
    (b : Bool) (w : World) → Shut w → Shut (record w { state = handle_logout b w.state })
unfolding handle_logout
handle_logout-Shut b w i = elim (Bool-cases (confirm_discard_vault b w.state)) [
  | inl y ↦ rw (y) (closed-Shut w (weaker_shut w.state.unlock_generation w.calls i.calls))
  | inr n ↦ rw (n) i
]

pub auto_lock-Same : (id : Text) (s : State) → s.vault ≡ none → Same s (auto_lock id s)
unfolding auto_lock
auto_lock-Same id s h = ground arith

pub record_activity-Same : (x : ℕ) (s : State) → Same s (record_activity x s)
unfolding record_activity
record_activity-Same x s = ground arith

pub change_auto_lock-Same : (m : ℕ) (s : State) → Same s (change_auto_lock m s)
unfolding change_auto_lock
change_auto_lock-Same m s = ground arith

pub draft_changed-Same : (d : Option EntryDraft) (s : State) → Same s (draft_changed d s)
unfolding draft_changed
draft_changed-Same d s = ground arith

pub after_activity-Same :
    (id : Text) (x : ℕ) (s : State) (r : IdleDeadline × Bool)
    → s.vault ≡ none
    → Same s (after_activity id x s r).2
unfolding after_activity
after_activity-Same id x s (d, true) h = record_activity-Same x s
after_activity-Same id x s (d, false) h = auto_lock-Same id s h

pub user_event-Same :
    (id : Text) (d : IdleDeadline) (x y : ℕ) (s : State)
    → s.vault ≡ none
    → Same s (user_event id d x y s).2
unfolding user_event
user_event-Same id d x y s h = after_activity-Same id x s (activity d x y) h

pub check_idle-Same :
    (id : Text) (d : IdleDeadline) (x y : ℕ) (s : State)
    → s.vault ≡ none
    → Same s (check_idle id d x y s)
unfolding check_idle
check_idle-Same id d x y s h = elim (Bool-cases (expired d x y)) [
  | inl e ↦ rw (e) (auto_lock-Same id s h)
  | inr e ↦ rw (e) (Same-refl s)
]

pub copy_stored-Same : (done : Bool) (s : State) → Same s (copy_stored done s)
unfolding copy_stored stored_at
copy_stored-Same done s = ground arith

pub key_removed-Same : (done : Bool) (s : State) → Same s (key_removed done s)
unfolding key_removed removed_at
key_removed-Same done s = ground arith

pub forget_copy-Same : (s : State) → Same s (forget_copy s)
unfolding forget_copy
forget_copy-Same s = ground arith

-- No call is ahead of the session.
abbrev pub is_valid : World → Bool
is_valid w = all (λ c. leb c.generation w.state.unlock_generation) w.calls

pub older :
    (c : Call) (g : ℕ)
    → leb c.generation g ≡ true
    → (ltb c.generation (g + 1) || (without_password c.password && is_early c.stage)) ≡ true
older c g h = let newer : ltb c.generation (g + 1) ≡ true = ground arith in rw (newer)

pub older_shut :
    (g : ℕ) (cs : List Call)
    → all (λ c. leb c.generation g) cs ≡ true
    → all (is_shut (g + 1)) cs ≡ true
older_shut g [] h = refl
older_shut g (c ∷ cs) h =
    let both = &&-true (leb c.generation g) _ h in
    let first : is_shut (g + 1) c ≡ true = unfold is_shut in older c g both.0 in
    rw (first, older_shut g cs both.1)
