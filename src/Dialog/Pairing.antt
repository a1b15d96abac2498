-- ===== src/Dialog/Pairing.antt =====
-- frontend/src/components/DevicePairingModal.tsx: the pairing code and its countdown. `stringify` and
-- `qr` stand for `JSON.stringify` and `QRCode.toDataURL`.
pub mod Countdown
use kypassword_server.Base.{
  ℕ, zero, suc, ◌-◌, leb, Text, codes, Bool, true, false, not, List, [], ◌∷◌, if◌then◌else◌, Result,
  ok, throw,
}
use kypassword_server.Api.{Thrown, to_error_message}

pub record Pairing : Type 0 where
  pub pin : Text
  pub secret : Text
  pub qr_url : Text
  pub seconds_remaining : ℕ
  pub error : Text
  pub copied : Bool

abbrev pub open_pairing : Pairing
open_pairing = record {
  pin = [];
  secret = [];
  qr_url = [];
  seconds_remaining = 90;
  error = [];
  copied = false;
}

pub record PairingCode : Type 0 where
  pub pin : Text
  pub secret : Text

-- `fetchPairingCode` up to its request.
unfoldable pub fetch_pairing_code : Pairing → Pairing
fetch_pairing_code s = record s { error = []; seconds_remaining = 90 }

pub record QrPayload : Type 0 where
  pub server : Text
  pub secret : Text
  pub pin : Text

abbrev drawn : Result Thrown Text → Pairing → Pairing
drawn (ok url) s = record s { qr_url = url }
drawn (throw e) s = record s {
  error = to_error_message e (codes "Failed to generate pairing code");
}

-- What it does with the answer.
unfoldable pub code_fetched :
    (Text → Result Thrown Text)
    → (QrPayload → Text)
    → Text
    → Result Thrown PairingCode
    → Pairing
    → Pairing
unfolding to_error_message
code_fetched qr stringify origin (throw e) s = record s {
  error = to_error_message e (codes "Failed to generate pairing code");
}
code_fetched qr stringify origin (ok res) s =
    drawn (qr (stringify (record { server = origin; secret = res.secret; pin = res.pin })))
      (record s { pin = res.pin; secret = res.secret })

-- Whether the effect has a timer, and a tick of it.
unfoldable pub has_timer : Pairing → Bool
has_timer s = not (leb s.seconds_remaining 0)

unfoldable pub tick : Pairing → Pairing
tick s =
    if leb s.seconds_remaining 1
    then record s { seconds_remaining = 0 }
    else record s { seconds_remaining = s.seconds_remaining - 1 }

unfoldable pub copy_pin : Pairing → Pairing × Text
copy_pin s = (record s { copied = true }, s.pin)

unfoldable pub copied_shown : Pairing → Pairing
copied_shown s = record s { copied = false }

-- The seconds that pass while there is a timer, on fuel.
unfoldable pub run_timer : ℕ → Pairing → Pairing
unfolding tick has_timer
run_timer zero s = s
run_timer (suc n) s = let rest = run_timer n (tick s) in if has_timer s then rest else s
