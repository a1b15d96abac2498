-- ===== src/Dialog/Security/Unlocks.antt =====
-- The envelopes that frontend/src/pages/SecuritySettings.tsx sends open the vault in
-- frontend/src/App.tsx.
use kypassword_server.Base.{
  ℕ, ◌==◌, Text, equal, is_empty, Bool, true, false, some, All, ok, ◌≡◌, refl, sym, Bool-cases, inl,
  inr,
}
use kypassword_server.Crypto.{Bytes, IsByte, Primitives, IsSound, wrap_vault_key, unwrap_vault_key}
use kypassword_server.Crypto.Wrapping.{unwrap_vault_key-wrap_vault_key}
use kypassword_server.Session.{State}
use kypassword_server.Session.Unlock.{Metadata, Call, begin, envelope_of, at_unwrap}
use kypassword_server.Dialog.Security.{
  [], Settings, handle_change_password, handle_generate_paper_recovery, paper_code_of,
}

-- The password is tried on the envelope that it was wrapped in, and gives the key.
abbrev pub Unlocks : Primitives → Bytes → Metadata → Text → Call → ℕ → State → Type 0
Unlocks p key m secret c now t =
    (begin c now m (some secret) t ≡ (t, some (at_unwrap m)))
    × (unwrap_vault_key p (envelope_of m) secret ≡ ok key)

begin-at_unwrap :
    (c : Call) (now : ℕ) (m : Metadata) (secret : Text) (t : State)
    → (m.version == 0) ≡ false
    → is_empty (envelope_of m) ≡ false
    → begin c now m (some secret) t ≡ (t, some (at_unwrap m))
unfolding begin
begin-at_unwrap c now m secret t v e = rw (v, e) refl

module _ (p : Primitives) (sound : IsSound p) (key salt iv : Bytes) (hk : All IsByte key)
    (hs : All IsByte salt) (hi : All IsByte iv) where
  -- Under `IsSound`, once the server holds the envelope that a change of the password sent, the new password
  -- opens the vault: it is tried on that envelope, and gives the vault key.
  pub handle_change_password-Unlocks :
      (s : Settings) (envelope : Text) (m : Metadata) (c : Call) (now : ℕ) (t : State)
      → (handle_change_password p key salt iv s).1 ≡ some envelope
      → m.password_envelope ≡ envelope
      → is_empty envelope ≡ false
      → (m.version == 0) ≡ false
      → Unlocks p key m s.new_password c now t
  unfolding handle_change_password
  handle_change_password-Unlocks s envelope m c now t sent stored filled v =
      elim (Bool-cases (equal s.new_password s.confirm_password)) [
        | inr n ↦ let absurd = rw (n) at sent in cc
        | inl y ↦
            let same : wrap_vault_key p key s.new_password salt iv ≡ envelope =
              (let e = rw (y) at sent in cc) in
            let chosen : envelope_of m ≡ envelope = rw (stored, filled) refl in
            (
              begin-at_unwrap c now m s.new_password t v (rw (chosen) filled),
              rw (chosen, sym same)
                  (unwrap_vault_key-wrap_vault_key p sound key s.new_password salt iv hk hs hi),
            )
      ]

  -- Under `IsSound`, once the server holds the envelope of a new paper code and no password envelope, the
  -- code opens the vault: it is tried on that envelope, and gives the vault key.
  pub handle_generate_paper_recovery-Unlocks :
      (s : Settings) (bytes : Bytes) (confirmed : Bool) (code envelope : Text) (m : Metadata)
      (c : Call) (now : ℕ) (t : State)
      → (handle_generate_paper_recovery p key bytes salt iv confirmed s).1 ≡ some (code, envelope)
      → m.recovery_envelope ≡ envelope
      → m.password_envelope ≡ []
      → is_empty envelope ≡ false
      → (m.version == 0) ≡ false
      → Unlocks p key m code c now t
  unfolding handle_generate_paper_recovery
  handle_generate_paper_recovery-Unlocks s bytes false code envelope m c now t sent stored
        none_there filled v =
      cc
  handle_generate_paper_recovery-Unlocks s bytes true code envelope m c now t sent stored none_there
        filled v =
      let same_code : paper_code_of bytes ≡ code = cc in
      let same : wrap_vault_key p key code salt iv ≡ envelope =
        (let e = rw (same_code) at sent in cc) in
      let chosen : envelope_of m ≡ envelope = rw (none_there, stored) refl in
      (
        begin-at_unwrap c now m code t v (rw (chosen) filled),
        rw (chosen, sym same) (unwrap_vault_key-wrap_vault_key p sound key code salt iv hk hs hi),
      )
