-- ===== src/Service/Domains/Commands.antt =====
-- src/server/service/domain.go: every operation that changes custom domains, as one command.
use redxt.Common.{ℕ, List, [], ◌∷◌, Text}
use redxt.Store.Tables.{Db}
use redxt.Service.Base.{Call, Service, ◌>>=◌, return}
use redxt.Service.Domains.Environment.{Outside, DomainPolicy}
use redxt.Service.Domains.Claims.{add_domain}
use redxt.Service.Domains.Verify.{verify_domain}
use redxt.Service.Domains.Serving.{
  set_domain_purpose, remove_domain, suspend_domain, renew_certificates,
}

pub data DomainAction : Type 0 where
  add : Text → Text → DomainAction
  verify : ℕ → DomainAction
  set_purpose : ℕ → Text → DomainAction
  remove : ℕ → DomainAction
  suspend : ℕ → Text → DomainAction
  renew : DomainAction

-- Who acts in which organization, and what the call gets from outside.
pub record DomainCommand : Type 0 where
  pub actor : ℕ
  pub org_id : ℕ
  pub call : Call
  pub outside : Outside
  pub action : DomainAction

unfoldable pub perform_domain :
    DomainPolicy → Outside → Call → ℕ → ℕ → DomainAction → Service (Unit {0})
perform_domain policy out call org actor (add raw purpose) = do
  d ← add_domain out policy call org actor raw purpose
  return tt
perform_domain policy out call org actor (verify id) = do
  d ← verify_domain out call org actor id
  return tt
perform_domain policy out call org actor (set_purpose id purpose) =
    set_domain_purpose org actor id purpose
perform_domain policy out call org actor (remove id) = remove_domain org actor id
perform_domain policy out call org actor (suspend id reason) = suspend_domain org actor id reason
perform_domain policy out call org actor renew = do
  n ← renew_certificates out policy call
  return tt

-- The database after a sequence of commands, refused ones included.
unfoldable pub run_domains : DomainPolicy → List DomainCommand → Db → Db
run_domains policy [] db = db
run_domains policy (c ∷ cs) db =
    run_domains policy cs (perform_domain policy c.outside c.call c.org_id c.actor c.action db).1
