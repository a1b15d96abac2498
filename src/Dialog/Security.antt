-- ===== src/Dialog/Security.antt =====
-- frontend/src/pages/SecuritySettings.tsx: the change of the master password, the paper recovery code,
-- the display of the vault key and the paired devices.
pub mod Unlocks
pub mod Codes
use kypassword_server.Base.{
  ℕ, ◌+◌, ◌-◌, ◌%◌, Text, codes, equal, length, get_or, take, drop, select, map, Bool, true, false,
  not, Option, none, some, List, [], ◌++◌, if◌then◌else◌, Result, ok, throw,
}
use kypassword_server.Api.{Thrown, to_error_message}
use kypassword_server.Crypto.{Bytes, Primitives, wrap_vault_key}

pub record Device : Type 0 where
  pub id : Text
  pub name : Text
  pub platform : Text
  pub last_seen_at : Text
  pub last_ip : Text

pub record SsoConfig : Type 0 where
  pub enabled : Bool
  pub issuer_url : Text

pub record Settings : Type 0 where
  pub new_password : Text
  pub confirm_password : Text
  pub devices : List Device
  pub paper_code : Option Text
  pub sso_config : Option SsoConfig
  pub show_pairing : Bool
  pub show_vault_key : Bool
  pub busy : Bool
  pub message : Text
  pub error : Text
  -- the number of calls of `onUserUpdated`
  pub updates : ℕ

-- The end of `loadDevices`; the server's `null` is no device.
unfoldable pub devices_loaded : Result Thrown (Option (List Device)) → Settings → Settings
devices_loaded (throw e) s = s
devices_loaded (ok none) s = record s { devices = [] }
devices_loaded (ok (some list)) s = record s { devices = list }

unfoldable pub sso_loaded : Result Thrown SsoConfig → Settings → Settings
sso_loaded (throw e) s = s
sso_loaded (ok cfg) s = record s { sso_config = some cfg }

abbrev begin : Settings → Settings
begin s = record s { busy = true; message = []; error = [] }

-- The state after `handleChangePassword` up to its request, and the envelope that it sends.
unfoldable pub handle_change_password :
    Primitives → Bytes → Bytes → Bytes → Settings → Settings × Option Text
unfolding wrap_vault_key equal
handle_change_password p vault_key salt iv s =
    if equal s.new_password s.confirm_password
    then (begin s, some (wrap_vault_key p vault_key s.new_password salt iv))
    else (record s { error = codes "New passwords do not match" }, none)

unfoldable pub password_changed : Result Thrown (Unit {0}) → Settings → Settings
unfolding to_error_message
password_changed (ok _) s = record s {
  message = codes "Master password changed and vault key re-wrapped successfully.";
  new_password = [];
  confirm_password = [];
  updates = s.updates + 1;
  busy = false;
}
password_changed (throw e) s = record s {
  error = to_error_message e (codes "Failed to change password");
  busy = false;
}

abbrev pub chars : Text
chars = codes "ABCDEFGHJKLMNPQRSTUVWXYZ23456789"

-- `chars[b % chars.length]`.
abbrev pub code_char : ℕ → ℕ
code_char b = get_or chars (b % length chars) 0

abbrev pub slice : ℕ → ℕ → Text → Text
slice i j t = take (j - i) (drop i t)

-- The code made of 16 random bytes.
unfoldable pub paper_code_of : Bytes → Text
paper_code_of bytes =
    let raw = map code_char bytes in
    codes "KYPASS-"
    ++ (slice 0 4 raw
        ++ (codes "-"
            ++ (slice 4 8 raw
                ++ (codes "-" ++ (slice 8 12 raw ++ (codes "-" ++ slice 12 16 raw))))))

-- The code, and the envelope that is sent.
unfoldable pub handle_generate_paper_recovery :
    Primitives → Bytes → Bytes → Bytes → Bytes → Bool → Settings → Settings × Option (Text × Text)
unfolding wrap_vault_key paper_code_of
handle_generate_paper_recovery p vault_key bytes salt iv confirmed s =
    let code = paper_code_of bytes in
    if confirmed then (begin s, some (code, wrap_vault_key p vault_key code salt iv)) else (s, none)

unfoldable pub paper_recovery_sent : Text → Result Thrown (Unit {0}) → Settings → Settings
unfolding to_error_message
paper_recovery_sent code (ok _) s = record s {
  paper_code = some code;
  message = codes "Paper recovery backup generated. Print or write this down.";
  busy = false;
}
paper_recovery_sent code (throw e) s = record s {
  error = to_error_message e (codes "Failed to generate paper recovery code");
  busy = false;
}

unfoldable pub handle_reveal_vault_key : Bool → Settings → Settings
handle_reveal_vault_key confirmed s =
    if s.show_vault_key
    then record s { show_vault_key = false }
    else if confirmed
    then record s { show_vault_key = true }
    else s

-- Whether `handleRevokeDevice` sends its request; the state is the same.
abbrev pub handle_revoke_device : Bool → Bool
handle_revoke_device confirmed = confirmed

unfoldable pub device_revoked : Text → Text → Result Thrown (Unit {0}) → Settings → Settings
unfolding to_error_message equal
device_revoked id name (ok _) s = record s {
  devices = select (λ d. not (equal d.id id)) s.devices;
  message = codes "Device \"" ++ (name ++ codes "\" revoked.");
}
device_revoked id name (throw e) s = record s {
  error = to_error_message e (codes "Failed to revoke device");
}
