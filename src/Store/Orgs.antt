-- ===== src/Store/Orgs.antt =====
-- src/server/store/org.go. `none` of a read is ErrNotFound.
use redxt.Common.{
  ℕ, ◌==◌, ◌&&◌, not, Bool, List, [], ◌∷◌, ◌++◌, Option, keep, any, find, update_where, count_where,
  Text, ◌=ᵗ◌, to_lower, trim_space, Result, ok, err, if◌then◌else◌,
}
use redxt.User.Role.{owner, admin, role_text}
use redxt.Store.Tables.{Org, Member, Db, StoreError, row_not_found, row_conflict}

unfoldable pub org_by_id : Db → ℕ → Option Org
org_by_id db id = find (λ o. o.id == id) db.orgs

unfoldable pub org_by_slug : Db → Text → Option Org
org_by_slug db slug =
    let wanted = to_lower (trim_space slug) in find (λ o. o.slug =ᵗ wanted) db.orgs

-- One transaction: the row, whose id the database chooses, and the owner's membership. A slug that
-- is taken is a uniqueness violation, which rolls both back.
unfoldable pub create_org : Org → Db → Result StoreError Db
create_org o db =
    if any (λ p. p.slug =ᵗ o.slug) db.orgs
    then err row_conflict
    else ok (record db {
      orgs = db.orgs ++ o ∷ [];
      members =
          db.members ++ record { org_id = o.id; user_id = o.owner_id; role = role_text owner } ∷ [];
    })

-- Shared organizations only: `personal = 0`.
unfoldable pub count_owned_orgs : Db → ℕ → ℕ
count_owned_orgs db user_id = count_where (λ o. o.owner_id == user_id && not o.personal) db.orgs

-- The SET clause of UpdateOrg.
abbrev profile_of : Org → Org → Org
profile_of new old = record old {
  name = new.name;
  description = new.description;
  website = new.website;
  location = new.location;
  avatar_url = new.avatar_url;
  visibility = new.visibility;
}

unfoldable pub update_org : Org → Db → Result StoreError Db
update_org o db =
    if any (λ p. p.id == o.id) db.orgs
    then ok (record db { orgs = update_where (λ p. p.id == o.id) (profile_of o) db.orgs })
    else err row_not_found

abbrev pub is_membership : ℕ → ℕ → Member → Bool
is_membership org_id user_id m = m.org_id == org_id && m.user_id == user_id

abbrev pub with_role : Text → Member → Member
with_role role m = record m { role = role }

-- `UPDATE organization_members SET role = ? WHERE org_id = ? AND user_id = ?`
unfoldable pub write_role : ℕ → ℕ → Text → List Member → List Member
write_role org_id user_id role ms = update_where (is_membership org_id user_id) (with_role role) ms

unfoldable pub transfer_org : ℕ → ℕ → ℕ → Db → Result StoreError Db
transfer_org org_id from_user_id to_user_id db =
    if any (is_membership org_id to_user_id) db.members
    then ok (record db {
      orgs = update_where (λ o. o.id == org_id) (λ o. record o { owner_id = to_user_id }) db.orgs;
      members =
          write_role org_id from_user_id (role_text admin)
            (write_role org_id to_user_id (role_text owner) db.members);
    })
    else err row_not_found

abbrev domain_of_org : Db → ℕ → ℕ → Bool
domain_of_org db org_id id = any (λ d. d.id == id && d.org_id == org_id) db.domains

-- Members, audit rows, zones, zone grants, invitations and custom domains with their audit rows go
-- with the row, by ON DELETE CASCADE.
unfoldable pub delete_org : ℕ → Db → Result StoreError Db
delete_org org_id db =
    if any (λ o. o.id == org_id) db.orgs
    then ok (record db {
      orgs = keep (λ o. not (o.id == org_id)) db.orgs;
      members = keep (λ m. not (m.org_id == org_id)) db.members;
      invites = keep (λ i. not (i.org_id == org_id)) db.invites;
      grants = keep (λ g. not (g.org_id == org_id)) db.grants;
      audit = keep (λ a. not (a.subject_id == org_id)) db.audit;
      domains = keep (λ d. not (d.org_id == org_id)) db.domains;
      domain_audit = keep (λ a. not (domain_of_org db org_id a.subject_id)) db.domain_audit;
      zones = keep (λ z. not (z.org_id == org_id)) db.zones;
    })
    else err row_not_found
