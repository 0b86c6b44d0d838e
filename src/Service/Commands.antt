-- ===== src/Service/Commands.antt =====
-- src/server/service/org.go: every operation that changes who is in an organization, as one command.
pub mod Owners
pub mod Steps
pub mod Guard
pub mod Strangers
use redxt.Common.{ℕ, ℤ, List, [], ◌∷◌, Text, Result, ok}
use redxt.Store.Tables.{Org, Db}
use redxt.Service.Base.{ServiceError, Config, Call, Service, ◌>>=◌, ◌>>◌, return}
use redxt.Service.Members.{set_member_role, remove_member}
use redxt.Service.Orgs.{transfer_ownership, delete_shared_org}
use redxt.Service.Invites.{invite_member, revoke_invite, accept_invite}

pub data Action : Type 0 where
  set_role : ℕ → ℕ → Text → Action
  remove : ℕ → ℕ → Action
  transfer : ℕ → ℕ → Action
  delete : ℕ → Action
  invite : ℕ → Text → Text → ℤ → Action
  revoke : ℕ → ℕ → Action
  accept : Text → Action

-- Who acts, and what the clock, the database and the random source supply.
pub record Command : Type 0 where
  pub actor : ℕ
  pub call : Call
  pub action : Action

module _ (cfg : Config) (hash : Text → Text) where
  unfoldable pub perform : Call → ℕ → Action → Service (Unit {0})
  perform call actor (set_role org target role) = set_member_role org actor target role
  perform call actor (remove org target) = remove_member call org actor target
  perform call actor (transfer org to) = transfer_ownership org actor to
  perform call actor (delete org) = delete_shared_org org actor
  perform call actor (invite org email role uses) = do
    code ← invite_member cfg hash call org actor email role uses
    return tt
  perform call actor (revoke org id) = revoke_invite org actor id
  perform call actor (accept code) = do org ← accept_invite cfg hash call actor code; return tt

  -- The database after a sequence of commands, refused ones included.
  unfoldable pub run : List Command → Db → Db
  run [] db = db
  run (c ∷ cs) db = run cs (perform c.call c.actor c.action db).1
