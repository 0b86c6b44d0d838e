-- ===== src/Service/Orgs.antt =====
-- src/server/service/org.go: the life of an organization.
pub mod Laws
use redxt.Common.{
  ℕ, ℤ, pos, ◌==◌, not, leb, leb_ℤ, ltb_ℤ, Bool, true, false, ◌&&◌, ◌||◌, [], Text, bytes, ◌=ᵗ◌,
  trim_space, Result, ok, err, if◌then◌else◌,
}
use redxt.User.Role.{owner, is_owner, org_settings, org_delete}
use redxt.User.Mode.{CreationMode, self_service_allowed, invite_allowed, admin_create_allowed}
use redxt.User.Name.{NameError, validate_name}
use redxt.Store.Tables.{Org, Db, org_created, org_updated, org_transferred}
use redxt.Store.Orgs.{create_org, count_owned_orgs, update_org, transfer_org, delete_org}
use redxt.Service.Base.{
  ServiceError, forbidden, disabled, quota_exceeded, validation, Message, name_message,
  visibility_public_or_private, new_owner_same, Config, Call, Service, ◌>>=◌, ◌>>◌, return,
  refuse_if, lift, ask, write, audit,
}
use redxt.Service.Access.{OrgAccess, access, require, creation_mode, default_org_visibility}
use redxt.Service.Invites.{redeem_invite}

pub record CreateOrgInput : Type 0 where
  pub slug : Text
  pub name : Text
  pub description : Text
  pub website : Text
  pub location : Text
  pub invite_code : Text
  pub by_admin : Bool

abbrev checked_name : Result NameError Text → Result ServiceError Text
checked_name (ok name) = ok name
checked_name (err e) = err (validation (name_message e))

-- The name, or the slug where the name is blank.
abbrev name_or : Text → Text → Text
name_or name slug = if trim_space name =ᵗ [] then slug else trim_space name

abbrev owned_over : ℕ → ℤ → Bool
owned_over owned max = leb_ℤ max (pos owned)

module _ (cfg : Config) (hash : Text → Text) (call : Call) where
  -- The policy that a request must satisfy, by the way it arrived; an invite is consumed here.
  unfoldable pub creation_policy : CreateOrgInput → Service (Unit {0})
  creation_policy input =
      if input.by_admin
      then refuse_if (not (admin_create_allowed (creation_mode cfg))) disabled
      else if not (input.invite_code =ᵗ [])
      then (do
        refuse_if (not (invite_allowed (creation_mode cfg))) disabled
        i ← redeem_invite hash call input.invite_code
        return tt)
      else refuse_if (not (self_service_allowed (creation_mode cfg))) forbidden

  abbrev new_org : ℕ → CreateOrgInput → Text → Org
  new_org owner_id input slug = record {
    id = call.fresh_id;
    slug = slug;
    name = name_or input.name slug;
    description = trim_space input.description;
    website = trim_space input.website;
    location = trim_space input.location;
    avatar_url = [];
    visibility = default_org_visibility cfg;
    personal = false;
    owner_id = owner_id;
    status = bytes "active";
  }

  unfoldable pub create_shared_org : ℕ → CreateOrgInput → Service Org
  create_shared_org owner_id input = do
    refuse_if (not cfg.orgs_enabled) disabled
    creation_policy input
    slug ← lift (checked_name (validate_name input.slug))
    owned ← ask (λ db. ok (count_owned_orgs db owner_id))
    refuse_if
        (ltb_ℤ (pos 0) cfg.max_per_user && not input.by_admin && owned_over owned cfg.max_per_user)
        quota_exceeded
    write (create_org (new_org owner_id input slug))
    audit call.fresh_id org_created owner_id 0
    return (new_org owner_id input slug)

abbrev edited : Org → CreateOrgInput → Org
edited o input = record o {
  name = name_or input.name o.name;
  description = trim_space input.description;
  website = trim_space input.website;
  location = trim_space input.location;
}

unfoldable pub update_profile : ℕ → ℕ → CreateOrgInput → Service Org
update_profile org_id actor_id input = do
  a ← ask (λ db. require db org_id actor_id org_settings)
  write (update_org (edited a.org input))
  audit org_id org_updated actor_id 0
  return (edited a.org input)

unfoldable pub set_org_visibility : ℕ → ℕ → Text → Service (Unit {0})
set_org_visibility org_id actor_id visibility = do
  refuse_if (not (visibility =ᵗ bytes "public" || visibility =ᵗ bytes "private"))
      (validation visibility_public_or_private)
  a ← ask (λ db. require db org_id actor_id org_settings)
  write (update_org (record (a.org) { visibility = visibility }))
  audit org_id org_updated actor_id 0

-- The row is gone, so no audit entry is written.
unfoldable pub delete_shared_org : ℕ → ℕ → Service (Unit {0})
delete_shared_org org_id actor_id = do
  a ← ask (λ db. require db org_id actor_id org_delete)
  refuse_if a.org.personal forbidden
  write (delete_org org_id)

unfoldable pub transfer_ownership : ℕ → ℕ → ℕ → Service (Unit {0})
transfer_ownership org_id actor_id new_owner_id = do
  a ← ask (λ db. access db org_id actor_id)
  refuse_if (not (is_owner a.role) || not (a.org.owner_id == actor_id)) forbidden
  refuse_if a.org.personal forbidden
  refuse_if (new_owner_id == actor_id) (validation new_owner_same)
  write (transfer_org org_id actor_id new_owner_id)
  audit org_id org_transferred actor_id new_owner_id
