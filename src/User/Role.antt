-- ===== src/User/Role.antt =====
-- src/user/role.go: the roles of an organization and what each may do.
pub mod Laws
use redxt.Common.{
  ℕ, Option, none, some, Bool, true, false, List, [], ◌∷◌, ltb, leb, ◌==◌, ◌||◌, ◌&&◌, not,
  if◌then◌else◌, keep, Text, bytes, ◌=ᵗ◌,
}
use redxt.User.Name.{normalize_name}

-- `unknown` stands for every other string of Go's type Role: the tables answer alike for all of them.
pub data Role : Type 0 where
  owner admin editor viewer unknown : Role

-- `unlisted` stands for every other string of Go's type Permission.
pub data Permission : Type 0 where
  read records_write zones_manage keys_manage keys_export tokens_manage : Permission
  members_manage org_settings org_transfer org_delete unlisted : Permission

-- `Permission(s)`, the conversion of a string.
unfoldable pub to_permission : Text → Permission
unfolding ◌=ᵗ◌
to_permission s =
    if s =ᵗ bytes "org:read"
    then read
    else if s =ᵗ bytes "records:write"
    then records_write
    else if s =ᵗ bytes "zones:manage"
    then zones_manage
    else if s =ᵗ bytes "keys:manage"
    then keys_manage
    else if s =ᵗ bytes "keys:export"
    then keys_export
    else if s =ᵗ bytes "tokens:manage"
    then tokens_manage
    else if s =ᵗ bytes "members:manage"
    then members_manage
    else if s =ᵗ bytes "org:settings"
    then org_settings
    else if s =ᵗ bytes "org:transfer"
    then org_transfer
    else if s =ᵗ bytes "org:delete"
    then org_delete
    else unlisted

-- `string(r)`; no unknown role is ever written.
abbrev pub role_text : Role → Text
role_text owner = bytes "owner"
role_text admin = bytes "admin"
role_text editor = bytes "editor"
role_text viewer = bytes "viewer"
role_text unknown = []

-- `Role(s)`, the conversion of a string.
unfoldable pub to_role : Text → Role
unfolding ◌=ᵗ◌
to_role s =
    if s =ᵗ bytes "owner"
    then owner
    else if s =ᵗ bytes "admin"
    then admin
    else if s =ᵗ bytes "editor"
    then editor
    else if s =ᵗ bytes "viewer"
    then viewer
    else unknown

abbrev known_or_none : Role → Option Role
known_or_none unknown = none
known_or_none r = some r

-- `none` is ErrUnknownRole.
unfoldable pub parse_role : Text → Option Role
parse_role raw = known_or_none (to_role (normalize_name raw))

-- The table rolePermissions.
unfoldable pub can : Role → Permission → Bool
can owner unlisted = false
can owner _ = true
can admin unlisted = false
can admin org_transfer = false
can admin org_delete = false
can admin _ = true
can editor read = true
can editor records_write = true
can editor _ = false
can viewer read = true
can viewer _ = false
can unknown _ = false

-- The table roleRank.
abbrev pub rank : Role → ℕ
rank viewer = 1
rank editor = 2
rank admin = 3
rank owner = 4
rank unknown = 0

abbrev pub is_owner : Role → Bool
is_owner owner = true
is_owner _ = false

abbrev pub is_admin : Role → Bool
is_admin admin = true
is_admin _ = false

unfoldable pub outranks_or_equals : Role → Role → Bool
outranks_or_equals r other = leb (rank other) (rank r)

unfoldable pub can_manage_member : Role → Role → Bool
unfolding can
can_manage_member r target =
    if not (can r members_manage)
    then false
    else if is_owner r
    then true
    else ltb (rank target) (rank r)

unfoldable pub can_grant_role : Role → Role → Bool
unfolding can
can_grant_role r target =
    if not (can r members_manage)
    then false
    else if is_owner target
    then is_owner r
    else ltb (rank target) (rank r) || is_owner r

abbrev ordered : List Permission
ordered =
    read ∷ records_write ∷ zones_manage ∷ keys_manage ∷ keys_export ∷ tokens_manage ∷ members_manage
    ∷ org_settings ∷ org_transfer ∷ org_delete ∷ []

unfoldable pub permissions : Role → List Permission
unfolding can
permissions r = keep (can r) ordered

unfoldable pub cap_role : Role → Role → Role
cap_role issuer requested =
    if rank requested == 0 || ltb (rank issuer) (rank requested) then issuer else requested
