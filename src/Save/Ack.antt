-- ===== src/Save/Ack.antt =====
-- What `uploadVault` takes for a confirmation.
use kypassword_server.Base.{ℕ, ◌<◌, codes, some, ◌≡◌, ◌↔◌, inl, inr, arith, Option-cases, ok}
use kypassword_server.Json.{Json, member, safe_natural}
use kypassword_server.Save.{acknowledge}

-- A body confirms version `w` exactly when it has a field `metadata` with a field `version` that is
-- the safe integer `w`, and `w` is above the version that was sent.
pub record Confirms (v : ℕ) (body : Json) (w : ℕ) : Type 0 where
  pub metadata : Json
  pub value : Json
  pub has_metadata : member (codes "metadata") body ≡ some metadata
  pub has_version : member (codes "version") metadata ≡ some value
  pub safe : safe_natural value ≡ some w
  pub above : v < w

acknowledge-Confirms : (v : ℕ) (body : Json) (w : ℕ) → acknowledge v body ≡ ok w → Confirms v body w
unfolding acknowledge
acknowledge-Confirms v body w h = elim (Option-cases (member (codes "metadata") body)) [
  | inl absent ↦ absurd (ground arith)
  | inr (m, e) ↦ elim (Option-cases (member (codes "version") m)) [
    | inl absent ↦ absurd (ground arith)
    | inr (j, f) ↦ record {
      metadata = m;
      value = j;
      has_metadata = e;
      has_version = f;
      safe = ground arith;
      above = ground arith;
    }
  ]
]

Confirms-acknowledge : (v : ℕ) (body : Json) (w : ℕ) → Confirms v body w → acknowledge v body ≡ ok w
unfolding acknowledge
Confirms-acknowledge v body w c = ground arith

-- `uploadVault` accepts a body exactly when the body confirms a safe, greater version.
pub acknowledge_iff :
    (v : ℕ) (body : Json) (w : ℕ) → (acknowledge v body ≡ ok w) ↔ Confirms v body w
acknowledge_iff v body w = (acknowledge-Confirms v body w, Confirms-acknowledge v body w)
