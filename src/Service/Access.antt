-- ===== src/Service/Access.antt =====
-- src/server/service/org.go: a caller's standing inside an organization.
pub mod Laws
use redxt.Common.{
  ℕ, Bool, true, false, Option, none, some, Text, Result, ok, err, if◌then◌else◌, ◌=ᵗ◌, bytes,
}
use redxt.User.Role.{Role, owner, viewer, Permission, parse_role, can}
use redxt.User.Mode.{CreationMode, disabled, parse_creation_mode}
use redxt.Store.Tables.{Org, Member, Db}
use redxt.Store.Orgs.{org_by_id, org_by_slug}
use redxt.Store.Members.{membership}
use redxt.Service.Base.{ServiceError, not_found, forbidden, Config, or_error}

pub record OrgAccess : Type 0 where
  pub org : Org
  pub role : Role

-- The role that a row of organization_members gives, if it parses.
unfoldable pub member_role : Option Member → Option Role
member_role none = none
member_role (some m) = parse_role m.role

abbrev grant_access : Option Org → Option Role → Result ServiceError OrgAccess
grant_access none r = err not_found
grant_access (some o) none = err not_found
grant_access (some o) (some r) = ok (record { org = o; role = r })

unfoldable pub access : Db → ℕ → ℕ → Result ServiceError OrgAccess
access db org_id user_id =
    grant_access (org_by_id db org_id) (member_role (membership org_id user_id db.members))

-- The lookup of the membership goes by the id of the organization that the slug names.
abbrev access_found : Db → ℕ → Option Org → Result ServiceError OrgAccess
access_found db user_id none = err not_found
access_found db user_id (some o) =
    grant_access (some o) (member_role (membership o.id user_id db.members))

unfoldable pub access_by_slug : Db → Text → ℕ → Result ServiceError OrgAccess
access_by_slug db slug user_id = access_found db user_id (org_by_slug db slug)

abbrev permitted : Permission → Result ServiceError OrgAccess → Result ServiceError OrgAccess
permitted p (err e) = err e
permitted p (ok a) = if can a.role p then ok a else err forbidden

unfoldable pub require : Db → ℕ → ℕ → Permission → Result ServiceError OrgAccess
require db org_id user_id p = permitted p (access db org_id user_id)

abbrev mode_or_disabled : Option CreationMode → CreationMode
mode_or_disabled none = disabled
mode_or_disabled (some m) = m

-- CreationMode: an unparsable value closes creation.
unfoldable pub creation_mode : Config → CreationMode
creation_mode cfg = mode_or_disabled (parse_creation_mode cfg.creation_mode)

unfoldable pub default_org_visibility : Config → Text
default_org_visibility cfg =
    if cfg.default_visibility =ᵗ bytes "public" then bytes "public" else bytes "private"

abbrev role_or_viewer : Option Role → Role
role_or_viewer none = viewer
role_or_viewer (some owner) = viewer
role_or_viewer (some r) = r

unfoldable pub default_member_role : Config → Role
default_member_role cfg = role_or_viewer (parse_role cfg.default_role)
