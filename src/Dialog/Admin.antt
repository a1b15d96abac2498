-- ===== src/Dialog/Admin.antt =====
-- frontend/src/pages/AdminPanel.tsx: the users, the SSO settings and the audit log of the server.
pub mod Users
use kypassword_server.Base.{
  ℕ, Text, codes, equal, Bool, true, false, not, Option, none, some, List, [], ◌∷◌, ◌++◌, map,
  if◌then◌else◌, Result, ok, throw,
}
use kypassword_server.Api.{Thrown, to_error_message}

pub data Role : Type 0 where
  admin user : Role

pub record User : Type 0 where
  pub id : Text
  pub username : Text
  pub role : Role
  pub active : Bool
  pub sso_sub : Option Text

pub record SsoSettings : Type 0 where
  pub enabled : Bool
  pub issuer_url : Text
  pub client_id : Text
  pub client_secret : Option Text
  pub auto_provision : Bool

pub record AuditEntry : Type 0 where
  pub index : ℕ
  pub timestamp : Text
  pub action : Text
  pub user_id : Text
  pub device_id : Text
  pub ip_address : Text
  pub details : Text
  pub hash : Text

pub record Provisioning : Type 0 where
  pub configured : Bool
  pub base_path : Text

pub data AdminTab : Type 0 where
  sso_tab users_tab audit_tab backup_tab : AdminTab

pub record AdminPanel : Type 0 where
  pub active_tab : AdminTab
  pub users_list : List User
  pub audit_logs : List AuditEntry
  pub provisioning : Option Provisioning
  pub audit_valid : Option Bool
  pub sso_settings : SsoSettings
  pub busy : Bool
  pub message : Text
  pub error : Text

abbrev pub open_panel : AdminPanel
open_panel = record {
  active_tab = sso_tab;
  users_list = [];
  audit_logs = [];
  provisioning = none;
  audit_valid = none;
  sso_settings = record {
    enabled = false;
    issuer_url = [];
    client_id = [];
    client_secret = some [];
    auto_provision = true;
  };
  busy = false;
  message = [];
  error = [];
}

-- The answers of the five requests of `loadData`; the server's `null` is an empty list.
pub record Loaded : Type 0 where
  pub users : Option (List User)
  pub sso : SsoSettings
  pub audit : Option (List AuditEntry)
  pub valid : Bool
  pub provisioning : Provisioning

abbrev or_none : {A : Type 0} → Option (List A) → List A
or_none none = []
or_none (some xs) = xs

unfoldable pub data_loaded : Result Thrown Loaded → AdminPanel → AdminPanel
unfolding to_error_message
data_loaded (ok r) s = record s {
  provisioning = some r.provisioning;
  users_list = or_none r.users;
  sso_settings = r.sso;
  audit_logs = or_none r.audit;
  audit_valid = some r.valid;
}
data_loaded (throw e) s = record s {
  error = to_error_message e (codes "Failed to load admin data");
}

-- `handleSaveSSO` up to its request, with what it sends, and its end.
unfoldable pub handle_save_sso : AdminPanel → AdminPanel × SsoSettings
handle_save_sso s = (record s { busy = true; message = []; error = [] }, s.sso_settings)

unfoldable pub sso_saved : Result Thrown (Unit {0}) → AdminPanel → AdminPanel
unfolding to_error_message
sso_saved (ok _) s = record s { message = codes "SSO settings saved successfully."; busy = false }
sso_saved (throw e) s = record s {
  error = to_error_message e (codes "Failed to save SSO settings");
  busy = false;
}

unfoldable pub apply_ky_sign_on_preset : AdminPanel → AdminPanel
apply_ky_sign_on_preset s = record s {
  sso_settings = record s.sso_settings {
    enabled = true;
    issuer_url = codes "https://auth.urlxl.com";
    client_id = codes "kypasswords";
    auto_provision = true;
  };
}

abbrev pub action_of : User → Text
action_of u = if u.active then codes "deactivate" else codes "reactivate"

-- `handleToggleDeactivate` up to its request: the path that it posts to.
unfoldable pub handle_toggle_deactivate : Bool → User → Option Text
handle_toggle_deactivate confirmed u =
    if confirmed
    then some (codes "/api/admin/users/" ++ (u.id ++ (codes "/" ++ action_of u)))
    else none

unfoldable pub set_active : Text → Bool → List User → List User
unfolding equal
set_active id active users =
    map (λ item. if equal item.id id then record item { active = active } else item) users

unfoldable pub toggled : User → Result Thrown (Unit {0}) → AdminPanel → AdminPanel
unfolding set_active to_error_message
toggled u (ok _) s = record s {
  users_list = set_active u.id (not u.active) s.users_list;
  message = codes "User " ++ (action_of u ++ codes "d.");
}
toggled u (throw e) s = record s {
  error = to_error_message e (codes "Failed to " ++ (action_of u ++ codes " user"));
}
