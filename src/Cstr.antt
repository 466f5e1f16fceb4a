-- ===== src/Cstr.antt =====
-- Strings in fixed C buffers: `impl TryCopyTo<[i8]> for T` (src/rule/mod.rs), `CStr`, and
-- `compare_cstr_safe` (src/lib.rs). A byte or `c_char` is its bit pattern, below 256.
pub mod Laws
use pfctl_rs.Common.{
  ℕ, suc, ◌≡◌, Bool, true, false, String, Option, none, some, List, [], ◌∷◌, ◌==◌, leb, length, set,
  overlay, replicate, contains, bytes_eq, if◌then◌else◌,
}
use pfctl_rs.Error.{Result, ok, err, panic}

-- The bytes of a Rust `str`.
abbrev pub Str : Type 0
Str = List ℕ

-- A zeroed buffer, as `new_zeroed` gives.
unfoldable pub zeros : ℕ → List ℕ
unfolding replicate
zeros n = replicate n 0

unfoldable pub try_copy_chars : Str → List ℕ → Result String (List ℕ)
unfolding contains
try_copy_chars src dst =
    if leb (length dst) (length src)
    then err "Too long"
    else if contains src 0
    then err "Contains null byte"
    else ok (set (overlay src dst) (length src) 0)

-- `CStr::from_bytes_until_nul`
unfoldable pub until_nul : List ℕ → Option Str
until_nul [] = none
until_nul (x ∷ xs) =
    let rest = until_nul xs in
    if x == 0 then some [] else elim rest [ none ↦ none | some s ↦ some (x ∷ s) ]

unfoldable pub compare_cstr_safe : Str → List ℕ → Result String Bool
unfolding until_nul bytes_eq
compare_cstr_safe s c_str = elim (until_nul c_str) [ none ↦ panic | some t ↦ ok (bytes_eq s t) ]
