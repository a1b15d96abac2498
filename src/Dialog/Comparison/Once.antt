-- ===== src/Dialog/Comparison/Once.antt =====
-- An entry of a conflict is recovered once (frontend/src/components/ConflictComparison.tsx).
use kypassword_server.Base.{
  Text, Bool-cases, false, List, [], ◌∷◌, ◌≡◌, inl, inr, refl, arith, length, Result, ok, throw,
  not, ◌||◌,
}
use kypassword_server.Api.{Thrown}
use kypassword_server.Vault.Listing.{Library}
use kypassword_server.Vault.Recover.{Stored, Imports, Recovered, recover_entry_copy}
use kypassword_server.Dialog.Comparison.{
  Comparison, LoadState, Reaches, is_recovered, loaded, recover, recovered_copy, select_row,
  set_reveal, has_selected,
}

-- No id twice.
abbrev pub IsSetList : List Text → Type 0
IsSetList [] = Unit
IsSetList (id ∷ ids) = (is_recovered id ids ≡ false) × IsSetList ids

abbrev pub IsOnce : Comparison → Type 0
IsOnce s = IsSetList s.recovered × (length s.copies ≡ length s.recovered)

module _ (lib : Library) (k : Imports) where
  recovered_copy-IsOnce :
      (r : Result Thrown (Text × Recovered)) (s : Comparison)
      → is_recovered s.selected_id s.recovered ≡ false
      → IsOnce s
      → IsOnce (recovered_copy lib k r s)
  unfolding recovered_copy
  recovered_copy-IsOnce (ok r) s new h = ((new, h.0), omega (arith, h.1))
  recovered_copy-IsOnce (throw e) s new h = h

  recover-IsOnce_of :
      (st : LoadState) (s : Comparison) → s.state ≡ st → IsOnce s → IsOnce (recover lib k s)
  unfolding recover
  recover-IsOnce_of LoadState.loading s e h = simp (recover, e) h
  recover-IsOnce_of LoadState.load_failed s e h = simp (recover, e) h
  recover-IsOnce_of (LoadState.ready vault) s e h =
      elim (Bool-cases
        (not (has_selected lib k vault s.selected_id) || is_recovered s.selected_id s.recovered)) [
          | inl t ↦ simp (recover, e, t) h
          | inr f ↦
              simp (recover, e, f)
                (recovered_copy-IsOnce (recover_entry_copy lib k vault s.selected_id s.current) s
                  (ground (arith, f)) h)
        ]

  loaded-IsOnce : (r : Result Thrown Stored) (s : Comparison) → IsOnce s → IsOnce (loaded lib k r s)
  unfolding loaded
  loaded-IsOnce (ok v) s h = h
  loaded-IsOnce (throw e) s h = h

  -- Whatever is loaded, selected and recovered in a shown comparison, no entry of the conflict is recovered
  -- twice: the ids noted as recovered are different, and there are as many copies as ids.
  pub Reaches-IsOnce : (current : Stored) (s : Comparison) → Reaches lib k current s → IsOnce s
  unfolding select_row set_reveal
  Reaches-IsOnce current _ Reaches.opens = (tt, refl)
  Reaches-IsOnce current _ (Reaches.loads {s} r h) = loaded-IsOnce r s (Reaches-IsOnce current s h)
  Reaches-IsOnce current _ (Reaches.selects {s} uuid h) = Reaches-IsOnce current s h
  Reaches-IsOnce current _ (Reaches.reveals {s} b h) = Reaches-IsOnce current s h
  Reaches-IsOnce current _ (Reaches.recovers {s} h) =
      recover-IsOnce_of s.state s refl (Reaches-IsOnce current s h)
