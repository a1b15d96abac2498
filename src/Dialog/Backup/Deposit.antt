-- ===== src/Dialog/Backup/Deposit.antt =====
-- What frontend/src/components/AdminBackup.tsx says of a deposit.
use kypassword_server.Base.{
  sym, Text, codes, is_empty, or_else, Bool-cases, true, false, List, [], ◌∷◌, ◌++◌, ◌≡◌, inl, inr,
  refl, arith, All, not,
}
use mathlib.Core.List.{append-nil, append_assoc}
use mathlib.Core.Path.{subst}
use kypassword_server.Dialog.Backup.{
  DepositReply, deposit_failed, deposit_details, join_parts, path_part, receipt_part,
}

abbrev pub Within : Text → Text → Type 0
Within part t = (a : Text) × (b : Text) × (t ≡ a ++ (part ++ b))

is_empty-nil : (t : Text) → is_empty t ≡ true → t ≡ []
is_empty-nil [] h = refl
is_empty-nil (c ∷ t) h = cc

Within-append : (part x t : Text) → Within part t → Within part (x ++ t)
Within-append part x t (a, b, h) = (x ++ a, b, rw (h) (sym (append_assoc x a (part ++ b))))

All-Within-append :
    (parts : List Text) (x t : Text)
    → All (λ p. Within p t) parts
    → All (λ p. Within p (x ++ t)) parts
All-Within-append [] x t h = tt
All-Within-append (p ∷ parts) x t h = (Within-append p x t h.0, All-Within-append parts x t h.1)

join_parts-extends :
    (p : Text) (parts : List Text)
    → ((x : Text) × (join_parts (p ∷ parts) ≡ x ++ join_parts parts))
      × Within p (join_parts (p ∷ parts))
unfolding join_parts
join_parts-extends p parts = elim (Bool-cases (is_empty p)) [
  | inl e ↦ (([], rw (e)), ([], join_parts parts, rw (e, is_empty-nil p e)))
  | inr n ↦ elim (Bool-cases (is_empty (join_parts parts))) [
    | inl e ↦ (
      (p, rw (n, e, is_empty-nil (join_parts parts) e) (sym (append-nil p))),
      ([], [], rw (n, e) (sym (append-nil p))),
    )
    | inr m ↦ (
      (p ++ codes " ", rw (n, m) (sym (append_assoc p (codes " ") (join_parts parts)))),
      ([], codes " " ++ join_parts parts, rw (n, m)),
    )
  ]
]

join_parts-Within : (parts : List Text) → All (λ p. Within p (join_parts parts)) parts
join_parts-Within [] = tt
join_parts-Within (p ∷ parts) =
    let one = join_parts-extends p parts in
    (
      one.1,
      subst (λ t. All (λ q. Within q t) parts) (sym one.0.1)
          (All-Within-append parts one.0.0 (join_parts parts) (join_parts-Within parts)),
    )

deposit_failed-false :
    (local_error warning : Text)
    → not (is_empty (or_else warning local_error)) ≡ false
    → (local_error ≡ []) × (warning ≡ [])
deposit_failed-false [] [] h = (refl, refl)
deposit_failed-false (c ∷ t) [] h = absurd (ground (arith, h))
deposit_failed-false e (c ∷ t) h = absurd (ground (arith, h))

-- The details of a deposit contain the local path, the receipt, the local error and the warning, each as far as
-- the reply has it; a reply shown as a success has neither a local error nor a warning.
pub deposit_details-Shows :
    (reply : DepositReply)
    → All
        (λ p. Within p (deposit_details reply))
        (path_part reply.local_path
          ∷ receipt_part reply.receipt
          ∷ reply.local_error
          ∷ reply.warning
          ∷ [])
      × ((deposit_failed reply ≡ false) → (reply.local_error ≡ []) × (reply.warning ≡ []))
unfolding deposit_details deposit_failed
deposit_details-Shows reply = (
  join_parts-Within (
      path_part reply.local_path
      ∷ receipt_part reply.receipt
      ∷ reply.local_error
      ∷ reply.warning
      ∷ []),
  deposit_failed-false reply.local_error reply.warning,
)
