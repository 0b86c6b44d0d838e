-- ===== src/Examples/Names.antt =====
-- Names and roles.
use redxt.Common.{
  ◌≤◌, ◌<◌, ◌≡◌, ◌≢◌, refl, ◌⊎◌, ◌↔◌, true, some, ok, bytes, contains, ◌=ᵗ◌, to_lower, trim_space,
  arith,
}
use redxt.User.Role.{
  owner, admin, editor, unknown, records_write, rank, can, parse_role, role_text, cap_role,
  can_grant_role,
}
use redxt.User.Role.Laws.{can_mono, cap_role_exact, parse_role-role_text, grant_needs_rank}
use redxt.User.Name.{normalize_name, matches_name, matches_name_tail, is_blocked, validate_name}
use redxt.User.Name.Laws.{IsValidName, validate_name_iff, validate_name_idempotent}

validate_name_iff_example :
    (validate_name (bytes " Alice") ≡ ok (bytes "alice"))
    ↔ ((normalize_name (bytes " Alice") ≡ bytes "alice") × IsValidName (bytes "alice"))
validate_name_iff_example = validate_name_iff (bytes " Alice") (bytes "alice") (ground arith)

alice : validate_name (bytes " Alice") ≡ ok (bytes "alice")
unfolding validate_name normalize_name matches_name matches_name_tail is_blocked contains ◌=ᵗ◌
    to_lower trim_space
alice = refl

alice_again : validate_name (bytes "alice") ≡ ok (bytes "alice")
alice_again = validate_name_idempotent (bytes " Alice") (bytes "alice") alice

editor_writes : can editor records_write ≡ true
unfolding can
editor_writes = refl

admin_writes : can admin records_write ≡ true
admin_writes = can_mono editor admin records_write (omega arith) editor_writes

capped_at_admin :
    ((owner ≢ unknown) × (rank owner ≤ rank admin) × (cap_role admin owner ≡ owner))
    ⊎ (((owner ≡ unknown) ⊎ (rank admin < rank owner)) × (cap_role admin owner ≡ admin))
capped_at_admin = cap_role_exact admin owner

editor_reads_back : parse_role (role_text editor) ≡ some editor
editor_reads_back = parse_role-role_text editor (λ e. cc)

admin_grants : can_grant_role admin editor ≡ true
unfolding can_grant_role
admin_grants = refl

editor_below_admin : (admin ≡ owner) ⊎ (rank editor < rank admin)
editor_below_admin = grant_needs_rank admin editor admin_grants
