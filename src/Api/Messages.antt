-- ===== src/Api/Messages.antt =====
-- The message that the user reads of a refused request.
use mathlib.Core.List.{append_assoc}
use kypassword_server.Base.{
  drop-append_at, length-append, starts_with-append, ◌<◌, ◌≤◌, ◌⊎◌, ◌==◌, ℕ, ◌+◌, ◌≤◌, ◌<◌, Text,
  or_else, index_of, index_of-skip, decimal, decimal-All, decimal-ne-nil, IsDigit, All, length,
  drop, false, some, [], ◌∷◌, ◌++◌, ◌≢◌, ◌≡◌, refl, ap, arith, throw,
}
use kypassword_server.Api.{
  Thrown, http_error, prefix, separator, to_error_message, Response, request_json,
}

IsDigit-no_space : (s : Text) → All IsDigit s → All (λ c. 32 ≢ c) s
IsDigit-no_space [] h = tt
IsDigit-no_space (c ∷ s) h = (omega arith, IsDigit-no_space s h.1)

-- The separator behind the status is the first one, whatever follows it.
index_of-status :
    (d : Text) (message : Text)
    → All IsDigit d
    → d ≢ []
    → index_of separator (prefix ++ (d ++ (separator ++ message))) ≡ some (16 + length d)
unfolding index_of
index_of-status [] message h ne = absurd (ne refl)
index_of-status (c ∷ d) message h ne =
    let no_dash : (45 == c) ≡ false = ground arith in
    let no_space : (32 == c) ≡ false = ground arith in
    rw
      (
        no_dash,
        no_space,
        index_of-skip (45 ∷ 32 ∷ []) d (separator ++ message) (IsDigit-no_space d h.1),
      )
      (ap some (omega arith))

drop-status :
    (d message : Text)
    → drop (16 + length d + 3) (prefix ++ (d ++ (separator ++ message))) ≡ message
drop-status d message = rw (← append_assoc d separator message) (
    drop-append_at (16 + length d + 3) (prefix ++ (d ++ separator)) message
      (omega (arith, length-append d separator)))

-- The reader of a refused request gets the server's message back, whatever its status and text.
pub to_error_message-http_error :
    (status : ℕ) (message fallback : Text)
    → to_error_message (http_error status message) fallback ≡ message
unfolding to_error_message
to_error_message-http_error status message fallback =
    let found =
      index_of-status (decimal status) message (decimal-All status) (decimal-ne-nil status) in
    let prefixed = starts_with-append prefix (decimal status ++ (separator ++ message)) in
    rw (found, prefixed) (drop-status (decimal status) message)

-- What the user reads of a response that is not 2xx is its body, or the status text if the body is
-- empty: no prefix and no status.
pub request_json-message :
    (r : Response) (fallback : Text)
    → (r.status < 200) ⊎ (300 ≤ r.status)
    → (t : Thrown) × (request_json r ≡ throw t)
      × (to_error_message t fallback ≡ or_else r.text r.status_text)
unfolding request_json
request_json-message r fallback h =
    let message = or_else r.text r.status_text in
    (
      http_error r.status message,
      ground arith,
      to_error_message-http_error r.status message fallback,
    )
