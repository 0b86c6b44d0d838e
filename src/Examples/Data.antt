-- ===== src/Examples/Data.antt =====
-- An organization with an owner (1), an admin (2) and an editor (3), and one open invitation.
use redxt.Common.{ℕ, pos, true, false, [], ◌∷◌, Text, bytes}
use redxt.Store.Tables.{Org, Invite, Domain, User, Challenge, Db}
use redxt.Service.Base.{Config, Call}
use redxt.Service.Tokens.{IssueTokenInput}

abbrev pub acme : Org
acme = record {
  id = 1;
  slug = bytes "acme";
  name = bytes "Acme";
  description = [];
  website = [];
  location = [];
  avatar_url = [];
  visibility = bytes "private";
  personal = false;
  owner_id = 1;
  status = bytes "active";
}

abbrev pub open_invite : Invite
open_invite = record {
  id = 5;
  code_hash = bytes "code";
  org_id = 1;
  email = [];
  role = bytes "viewer";
  max_uses = pos 1;
  use_count = pos 0;
  invited_by = 1;
  accepted_at = pos 0;
  expires_at = pos 100;
}

-- Not yet verified; the TXT record must hold "proof".
abbrev pub acme_domain : Domain
acme_domain = record {
  id = 6;
  org_id = 1;
  name = bytes "www.acme.com";
  purpose = bytes "ui";
  is_apex = false;
  is_wildcard = false;
  verification_status = bytes "pending";
  verification_token = bytes "proof";
  verified_at = pos 0;
  last_check_at = pos 0;
  check_count = 0;
  ssl_enabled = true;
  ssl_status = bytes "none";
  ssl_challenge = [];
  ssl_issued_at = pos 0;
  ssl_expires_at = pos 0;
  ssl_last_error = [];
  status = bytes "pending";
  suspend_reason = [];
}

-- The hash of a password is the password behind "h:".
abbrev pub ada : User
ada = record {
  id = 1;
  username = bytes "ada";
  email = bytes "ada@acme.com";
  password_hash = bytes "h:secret";
  status = bytes "active";
  failed_logins = 0;
  locked_until = pos 0;
  last_login_at = pos 0;
}

abbrev pub open_reset : Challenge
open_reset = record {
  id = 8;
  user_id = 1;
  token_hash = bytes "reset";
  used_at = pos 0;
  expires_at = pos 100;
}

abbrev pub db : Db
db = record {
  orgs = acme ∷ [];
  members =
      record { org_id = 1; user_id = 1; role = bytes "owner" }
      ∷ record { org_id = 1; user_id = 2; role = bytes "admin" }
      ∷ record { org_id = 1; user_id = 3; role = bytes "editor" }
      ∷ [];
  invites = open_invite ∷ [];
  tokens = [];
  grants = [];
  zones = record { id = 4; org_id = 1 } ∷ [];
  audit = [];
  domains = acme_domain ∷ [];
  domain_audit = [];
  users = ada ∷ [];
  sessions = [];
  resets = open_reset ∷ [];
  totps = [];
}

abbrev pub config : Config
config = record {
  tokens_enabled = true;
  tokens_max_per_user = pos 5;
  tokens_expiration_days = pos 0;
  invite_expiration_days = pos 7;
  orgs_enabled = true;
  creation_mode = bytes "public";
  max_per_user = pos 3;
  default_visibility = bytes "private";
  default_role = bytes "viewer";
  allow_invites = true;
}

abbrev pub at : ℕ → Call
at now = record { now = pos now; fresh_id = 9; random = bytes "r4nd0m" }

-- A hash without collisions.
abbrev pub plain : Text → Text
plain s = s

abbrev pub deploy_token : IssueTokenInput
deploy_token = record {
  name = bytes "deploy";
  org_id = 1;
  zone_id = 0;
  capability = [];
  role = bytes "owner";
  scope = bytes "read-write";
  expires_in = pos 50;
}
