-- ===== src/Rule/Codes.antt =====
-- The byte encodings of families, directions and protocols: `u8::from` and `TryFrom<u8>`.
use pfctl_rs.Common.{ℕ, ◌≡◌, ◌≢◌, ◌↔◌}
use pfctl_rs.Error.{Error, Result, ok, err}
use pfctl_rs.Platform.{Platform, HasDistinctProtocols}
use pfctl_rs.Rule.AddrFamily
use pfctl_rs.Rule.AddrFamily.Laws.{addr_family_try_from_iff}
use pfctl_rs.Rule.Direction
use pfctl_rs.Rule.Direction.{direction_try_from_iff}
use pfctl_rs.Rule.Proto
use pfctl_rs.Rule.Proto.{proto_try_from_iff}

-- A byte is read as a value exactly if the value is written as the byte; every other byte is
-- refused, with the byte in the error.
abbrev pub Reads : {A : Type 0} → (ℕ → Result Error A) → (A → ℕ) → (ℕ → Error) → ℕ → Type 0
Reads {A} try_from to_u8 refusal b =
    ((a : A) → (try_from b ≡ ok a) ↔ (to_u8 a ≡ b))
    × (((a : A) → to_u8 a ≢ b) → try_from b ≡ err (refusal b))

-- If the protocol numbers of the platform differ as bytes, every byte is read as a family, as a
-- direction and as a protocol exactly if that value is written as the byte, and is otherwise
-- refused, with the byte in the error of its own kind.
pub try_from-Reads :
    (P : Platform)
    → HasDistinctProtocols P
    → (b : ℕ)
    → Reads AddrFamily.try_from AddrFamily.to_u8 Error.invalid_address_family b
      × Reads Direction.try_from Direction.to_u8 Error.invalid_direction b
      × Reads (Proto.try_from P) (Proto.to_u8 P) Error.invalid_transport_protocol b
try_from-Reads P D b =
    (addr_family_try_from_iff b, direction_try_from_iff b, proto_try_from_iff P D b)
