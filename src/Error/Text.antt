-- ===== src/Error/Text.antt =====
-- `impl fmt::Display for Error` (src/lib.rs).
use pfctl_rs.Common.{ℕ, zero, suc, ◌/◌, ◌%◌, ◌<>◌, String, leb, if◌then◌else◌, List, [], ◌∷◌}
use pfctl_rs.Error.{Error}

-- The digits from the one for `0` on.
abbrev digits : List String
digits = "0" ∷ "1" ∷ "2" ∷ "3" ∷ "4" ∷ "5" ∷ "6" ∷ "7" ∷ "8" ∷ "9" ∷ []

abbrev nth : ℕ → List String → String
nth n [] = ""
nth zero (s ∷ ss) = s
nth (suc n) (s ∷ ss) = nth n ss

abbrev digit : ℕ → String
digit n = nth n digits

-- `{}` of a `u8`, in decimal.
abbrev pub byte_to_string : ℕ → String
byte_to_string n =
    if leb n 9
    then digit n
    else if leb n 99
    then digit (n / 10) <> digit (n % 10)
    else digit (n / 100) <> (digit (n / 10 % 10) <> digit (n % 10))

-- The text of an `UninitializedFieldError` is derive_builder's, and an argument here.
abbrev pub to_string : String → Error → String
to_string inner (Error.device_open device_path e) =
    "Unable to open PF device file (" <> device_path <> ")"
to_string inner (Error.invalid_rule_combination msg) = "Invalid rule combination: " <> msg
to_string inner Error.uninitialized_field_error = inner
to_string inner (Error.invalid_interface_name reason) = "Invalid interface name (" <> reason <> ")"
to_string inner (Error.invalid_anchor_name reason) = "Invalid anchor name (" <> reason <> ")"
to_string inner Error.invalid_port_range = "Lower port is greater than upper port"
to_string inner (Error.invalid_label reason) = "Invalid rule label (" <> reason
to_string inner (Error.invalid_address_family family) =
    "Invalid address family (" <> byte_to_string family <> ")"
to_string inner (Error.invalid_direction direction) =
    "Invalid direction (" <> byte_to_string direction <> ")"
to_string inner (Error.invalid_transport_protocol protocol) =
    "Invalid transport protocol (" <> byte_to_string protocol <> ")"
to_string inner Error.state_already_active = "Target state is already active"
to_string inner Error.anchor_does_not_exist = "Anchor does not exist"
to_string inner (Error.ioctl e) = "Error during ioctl syscall"
