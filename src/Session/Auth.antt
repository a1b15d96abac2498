-- ===== src/Session/Auth.antt =====
-- The start of frontend/src/App.tsx, `checkAuth`, the form that unlocks the vault, and `handleForgetDevice`.
use kypassword_server.Base.{
  Text, codes, Bool, true, false, Option, none, some, List, [], ◌∷◌, ◌++◌, if◌then◌else◌, Result,
  ok, throw,
}
use kypassword_server.Api.{Thrown}
use kypassword_server.Session.{State, close_vault, set_save_queue}
use kypassword_server.Session.Lock.{confirm_discard_vault}

-- The state of the page around the vault: the id of the user, and two flags.
pub record App : Type 0 where
  pub user : Option Text
  pub loading : Bool
  pub unlocking : Bool
  pub state : State

-- The branches of `checkAuth` without a user.
abbrev signed_out : App → App
unfolding set_save_queue
signed_out a = record a {
  user = none;
  state = record (set_save_queue none a.state) {
    vault = none;
    vault_key = none;
    has_draft = false;
  };
}

-- `checkAuth` with the answer of the server, up to `initVault`; with whether that is called.
unfoldable pub auth_checked : Result Thrown (Bool × Option Text) → App → App × Bool
unfolding signed_out
auth_checked (throw e) a = (record (signed_out a) { loading = false }, false)
auth_checked (ok (true, some u)) a = (record a { user = some u }, true)
auth_checked (ok (true, none)) a = (record (signed_out a) { loading = false }, false)
auth_checked (ok (false, u)) a = (record (signed_out a) { loading = false }, false)

-- `checkAuth` once `initVault` is done, which throws nothing.
unfoldable pub auth_done : App → App
auth_done a = record a { loading = false }

-- `handleUnlockSubmit` up to `initVault`, with the password that it is called with.
unfoldable pub begin_unlock : App → App × Option Text
begin_unlock a = elim a.user [
  | none ↦ (a, none)
  | some u ↦ (
    record a { unlocking = true; state = record a.state { unlock_error = [] } },
    some a.state.unlock_password,
  )
]

-- `handleUnlockSubmit` once `initVault` is done, which throws nothing.
unfoldable pub unlock_done : App → App
unlock_done a = record a { unlocking = false; state = record a.state { unlock_password = [] } }

-- `handleForgetDevice` up to its three actions, with whether they start.
unfoldable pub forget_device : Bool → State → State × Bool
unfolding confirm_discard_vault close_vault
forget_device confirmed s =
    if confirm_discard_vault confirmed s then (close_vault s, true) else (s, false)

abbrev alert_if : Text → Result Thrown (Unit {0}) → List Text
alert_if text (ok _) = []
alert_if text (throw e) = text ∷ []

-- The alerts after the key was cleared, the recovery copy was removed and the session was ended.
unfoldable pub forget_alerts :
    Result Thrown (Unit {0}) → Result Thrown (Unit {0}) → Result Thrown (Unit {0}) → List Text
forget_alerts key copy logout =
    alert_if
      (codes
        "Could not forget this device. Clear this site's browser data to remove its saved vault key.")
      key
    ++ (alert_if (codes "Could not remove the local recovery copy. Clear this site’s browser data.")
          copy
        ++ alert_if (codes "Vault locked locally, but server logout failed.") logout)
