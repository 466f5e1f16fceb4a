-- ===== src/Rule/Interface.antt =====
-- `Interface`, `InterfaceFlags` and `InterfaceDescription` (src/rule/interface.rs).
pub mod Utf8
pub mod Laws
use pfctl_rs.Common.{ℕ, ◌*◌, Bool, true, false, String, Option, none, some, List, []}
use pfctl_rs.Common.Int.{ℤ, pos}
use pfctl_rs.Error.{Error, Result, ok, err, map_err}
use pfctl_rs.Cstr.{Str, try_copy_chars, until_nul}
use pfctl_rs.Ffi.{PfiKif}
use Utf8.{is_utf8}

-- `InterfaceName` is the string that it wraps.
pub data Interface : Type 0 where
  any : Interface
  name : Str → Interface

abbrev pub to_str : Interface → Str
to_str any = []
to_str (name s) = s

unfoldable pub try_copy_to : Interface → List ℕ → Result Error (List ℕ)
try_copy_to i dst = map_err Error.invalid_interface_name (try_copy_chars (to_str i) dst)

pub record InterfaceFlags : Type 0 where
  pub bits : ℤ

abbrev pub skip : InterfaceFlags
skip = record { bits = pos 0x0100 }

pub record InterfaceDescription : Type 0 where
  pub name : Str
  pub flags : InterfaceFlags

unfoldable pub description_try_from : PfiKif → Result Error InterfaceDescription
description_try_from kif = elim (until_nul kif.pfik_name) [
  | none ↦ err (Error.invalid_interface_name "missing nul byte")
  | some s ↦ elim (is_utf8 s) [
    | true ↦ ok (record { name = s; flags = record { bits = kif.pfik_flags } })
    | false ↦ err (Error.invalid_interface_name "invalid utf8 encoding")
  ]
]
