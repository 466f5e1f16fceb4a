-- ===== src/Error.antt =====
-- `Error`, `ErrorKind` and `Result` of src/lib.rs, with panics as a third outcome.
pub mod Succeeds
pub mod Text
use pfctl_rs.Common.{ℕ, ◌≡◌, refl, Bool, String, Option, none, some, ◌==◌, if◌then◌else◌}

pub data ErrorKind : Type 0 where
  device_open invalid_rule_combination uninitialized_field_error : ErrorKind
  invalid_interface_name invalid_anchor_name invalid_port_range invalid_label : ErrorKind
  invalid_address_family invalid_direction invalid_transport_protocol : ErrorKind
  state_already_active anchor_does_not_exist ioctl : ErrorKind

-- `ErrorInternal`, which `Error` wraps. An `io::Error` is its errno. What derive_builder puts
-- into its `UninitializedFieldError` is left out.
pub data Error : Type 0 where
  device_open : String → ℕ → Error
  invalid_rule_combination : String → Error
  uninitialized_field_error : Error
  invalid_interface_name invalid_anchor_name : String → Error
  invalid_port_range : Error
  invalid_label : String → Error
  invalid_address_family invalid_direction invalid_transport_protocol : ℕ → Error
  state_already_active anchor_does_not_exist : Error
  ioctl : ℕ → Error

-- `Error::kind`
abbrev pub kind : Error → ErrorKind
kind (Error.device_open path e) = ErrorKind.device_open
kind (Error.invalid_rule_combination msg) = ErrorKind.invalid_rule_combination
kind Error.uninitialized_field_error = ErrorKind.uninitialized_field_error
kind (Error.invalid_interface_name reason) = ErrorKind.invalid_interface_name
kind (Error.invalid_anchor_name reason) = ErrorKind.invalid_anchor_name
kind Error.invalid_port_range = ErrorKind.invalid_port_range
kind (Error.invalid_label reason) = ErrorKind.invalid_label
kind (Error.invalid_address_family family) = ErrorKind.invalid_address_family
kind (Error.invalid_direction direction) = ErrorKind.invalid_direction
kind (Error.invalid_transport_protocol protocol) = ErrorKind.invalid_transport_protocol
kind Error.state_already_active = ErrorKind.state_already_active
kind Error.anchor_does_not_exist = ErrorKind.anchor_does_not_exist
kind (Error.ioctl e) = ErrorKind.ioctl

-- `Error::source`: the errno of the `io::Error` behind an error, if there is one.
abbrev pub source : Error → Option ℕ
source (Error.device_open path e) = some e
source (Error.ioctl e) = some e
source _ = none

-- The derived `PartialEq` of `ErrorKind` compares discriminants.
abbrev pub discriminant : ErrorKind → ℕ
discriminant ErrorKind.device_open = 0
discriminant ErrorKind.invalid_rule_combination = 1
discriminant ErrorKind.uninitialized_field_error = 2
discriminant ErrorKind.invalid_interface_name = 3
discriminant ErrorKind.invalid_anchor_name = 4
discriminant ErrorKind.invalid_port_range = 5
discriminant ErrorKind.invalid_label = 6
discriminant ErrorKind.invalid_address_family = 7
discriminant ErrorKind.invalid_direction = 8
discriminant ErrorKind.invalid_transport_protocol = 9
discriminant ErrorKind.state_already_active = 10
discriminant ErrorKind.anchor_does_not_exist = 11
discriminant ErrorKind.ioctl = 12

abbrev pub same_kind : ErrorKind → ErrorKind → Bool
same_kind a b = discriminant a == discriminant b

-- A Rust `Result<A, E>`, or a panic.
pub data Result (E A : Type 0) : Type 0 where
  ok : A → Result E A
  err : E → Result E A
  panic : Result E A

-- `Result::and_then`, and the `?` operator.
abbrev pub and_then : {E A B : Type 0} → Result E A → (A → Result E B) → Result E B
and_then (ok a) f = f a
and_then (err e) f = err e
and_then panic f = panic

infixl 5 ◌>>=◌ ◌>>◌
abbrev pub ◌>>=◌ : {E A B : Type 0} → Result E A → (A → Result E B) → Result E B
m >>= f = and_then m f

abbrev pub ◌>>◌ : {E B : Type 0} → Result E (Unit {0}) → Result E B → Result E B
m >> k = m >>= λ _. k

-- `Result::map_err`
abbrev pub map_err : {E F A : Type 0} → (E → F) → Result E A → Result F A
map_err f (ok a) = ok a
map_err f (err e) = err (f e)
map_err f panic = panic

-- `Option::unwrap` and `expect`
abbrev pub unwrap : {E A : Type 0} → Option A → Result E A
unwrap none = panic
unwrap (some a) = ok a

-- A chain that gives a value has had a value from its first part.
pub >>=-eq-ok :
    {E X Y : Type 0} (first : Result E X) (next : X → Result E Y) {y : Y}
    → (first >>= next) ≡ ok y
    → (x : X) × (first ≡ ok x) × (next x ≡ ok y)
>>=-eq-ok (ok x) next h = (x, refl, h)
>>=-eq-ok panic next h = cc
>>=-eq-ok (err e) next h = cc

-- `ignore_error_kind!`
unfoldable pub ignore_error_kind : Result Error (Unit {0}) → ErrorKind → Result Error (Unit {0})
ignore_error_kind (err e) k = if same_kind (kind e) k then ok tt else err e
ignore_error_kind (ok a) k = ok a
ignore_error_kind panic k = panic

pub >>=-assoc :
    {E A B C : Type 0} (m : Result E A) (f : A → Result E B) (g : B → Result E C)
    → ((m >>= f) >>= g) ≡ (m >>= λ a. f a >>= g)
>>=-assoc (ok a) f g = refl
>>=-assoc (err e) f g = refl
>>=-assoc panic f g = refl
