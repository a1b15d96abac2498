-- ===== src/Vault/Groups.antt =====
-- The folders of the vault and `findGroup` (frontend/src/lib/kdbx.ts).
use kypassword_server.Base.{Text, equal, Option, none, some, if◌then◌else◌}

mutual
  -- A group with its id, its name and its groups.
  pub data Group : Type 0 where
    group : Text → Text → Groups → Group

  pub data Groups : Type 0 where
    no_groups : Groups
    more_groups : Group → Groups → Groups

unfoldable mutual
  unfolding equal

  -- `search`, in a group and then in the groups below it.
  pub find_group : Text → Group → Option Group
  find_group uuid (group u name below) =
      let found = find_below uuid below in if equal u uuid then some (group u name below) else found

  pub find_below : Text → Groups → Option Group
  find_below uuid no_groups = none
  find_below uuid (more_groups g gs) =
      let rest = find_below uuid gs in
      elim (find_group uuid g) [ none ↦ rest | some found ↦ some found ]
