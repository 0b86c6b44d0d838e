-- ===== src/User/Mode.antt =====
-- src/user/mode.go: who may create an account or an organization. Both mode types have the same
-- four values and the same three tests.
use redxt.Common.{Option, none, some, Bool, true, false, Text, bytes, ◌=ᵗ◌, if◌then◌else◌}
use redxt.User.Name.{normalize_name}

pub data CreationMode : Type 0 where
  open_to_all invite admin_only disabled : CreationMode

-- `none` is ErrUnknownMode.
unfoldable pub parse_creation_mode : Text → Option CreationMode
parse_creation_mode raw =
    let mode = normalize_name raw in
    if mode =ᵗ bytes "open"
    then some open_to_all
    else if mode =ᵗ bytes "invite"
    then some invite
    else if mode =ᵗ bytes "admin_only"
    then some admin_only
    else if mode =ᵗ bytes "disabled"
    then some disabled
    else none

abbrev pub self_service_allowed : CreationMode → Bool
self_service_allowed open_to_all = true
self_service_allowed _ = false

abbrev pub invite_allowed : CreationMode → Bool
invite_allowed open_to_all = true
invite_allowed invite = true
invite_allowed _ = false

abbrev pub admin_create_allowed : CreationMode → Bool
admin_create_allowed disabled = false
admin_create_allowed _ = true
