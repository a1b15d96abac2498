-- ===== src/Conflict/Changes.antt =====
-- What the comparison says of an entry.
use kypassword_server.Base.{
  Text, equal, equal_iff, not, Bool, false, none, some, List, [], ◌∷◌, any, select, All, ◌≡◌, refl,
  ◌↔◌, arith, Bool-cases, inl, inr,
}
use kypassword_server.Conflict.{
  Entry, Field, title, username, password, url, notes, totp_seed, read, read_existing, find_by_id,
  comparison_fields, compare_entry,
}

select-eq-nil : (p : Field → Bool) (fs : List Field) → select p fs ≡ [] → All (λ f. p f ≡ false) fs
select-eq-nil p [] h = tt
select-eq-nil p (f ∷ fs) h = elim (Bool-cases (p f)) [
  | inl kept ↦ absurd (ground arith)
  | inr dropped ↦ (dropped, select-eq-nil p fs (rw dropped at h))
]

select-nil : (p : Field → Bool) (fs : List Field) → ((f : Field) → p f ≡ false) → select p fs ≡ []
select-nil p [] h = refl
select-nil p (f ∷ fs) h = rw (h f) (select-nil p fs h)

every_field :
    (p : Field → Bool) → All (λ f. p f ≡ false) comparison_fields → (f : Field) → p f ≡ false
every_field p h title = h.0
every_field p h username = h.1.0
every_field p h password = h.1.1.0
every_field p h url = h.1.1.1.0
every_field p h notes = h.1.1.1.1.0
every_field p h totp_seed = h.1.1.1.1.1.0

-- An entry is shown without changed fields exactly when each of the six fields reads as in the entry of
-- the open vault with that id, or is empty where the vault has none.
pub changed_fields-eq-nil_iff :
    (current : List Entry) (e : Entry)
    → ((compare_entry current e).changed_fields ≡ [])
      ↔ ((f : Field) → read f e ≡ read_existing f (find_by_id e.uuid current))
unfolding compare_entry
changed_fields-eq-nil_iff current e =
    let existing = find_by_id e.uuid current in
    let differs = λ (f : Field). not (equal (read f e) (read_existing f existing)) in
    (
      λ h f. same f (every_field differs (select-eq-nil differs comparison_fields h) f),
      λ h. select-nil differs comparison_fields (λ f. differs_not f (h f)),
    )
  where
    same :
        (f : Field)
        → not (equal (read f e) (read_existing f (find_by_id e.uuid current))) ≡ false
        → read f e ≡ read_existing f (find_by_id e.uuid current)
    same f h = (equal_iff (read f e) (read_existing f (find_by_id e.uuid current))).0 (ground arith)

    differs_not :
        (f : Field)
        → read f e ≡ read_existing f (find_by_id e.uuid current)
        → not (equal (read f e) (read_existing f (find_by_id e.uuid current))) ≡ false
    differs_not f h = rw ((equal_iff (read f e) (read_existing f (find_by_id e.uuid current))).1 h)

find_by_id-uuid :
    (id : Text) (es : List Entry) (e : Entry) → find_by_id id es ≡ some e → e.uuid ≡ id
unfolding find_by_id
find_by_id-uuid id [] e h = absurd (ground arith)
find_by_id-uuid id (x ∷ es) e h = ground (arith, find_by_id-uuid id es e, (equal_iff x.uuid id).0)

find_by_id-eq-none :
    (id : Text) (es : List Entry) → find_by_id id es ≡ none → any (λ x. equal x.uuid id) es ≡ false
unfolding find_by_id
find_by_id-eq-none id [] h = refl
find_by_id-eq-none id (x ∷ es) h = ground (arith, find_by_id-eq-none id es)
