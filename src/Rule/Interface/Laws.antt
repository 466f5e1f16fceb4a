-- ===== src/Rule/Interface/Laws.antt =====
-- The name of an interface, written for the kernel and read from it.
use pfctl_rs.Common.{ℕ, ◌≡◌, refl, ◌∙◌, ap, true, some, List, arith}
use pfctl_rs.Error.{ok}
use pfctl_rs.Cstr.{Str, try_copy_chars, until_nul}
use pfctl_rs.Cstr.Laws.{try_copy_chars-until_nul}
use pfctl_rs.Ffi.{PfiKif}
use pfctl_rs.Rule.Interface.{name, try_copy_to, description_try_from}
use pfctl_rs.Rule.Interface.Utf8.{is_utf8}

-- A name that is UTF-8 and was written into a buffer is described again from an entry with that
-- buffer, with the flags of the entry.
pub description_try_from-try_copy_to :
    (s : Str) (dst buffer : List ℕ) (kif : PfiKif)
    → is_utf8 s ≡ true
    → try_copy_to (name s) dst ≡ ok buffer
    → kif.pfik_name ≡ buffer
    → description_try_from kif ≡ ok (record { name = s; flags = record { bits = kif.pfik_flags } })
unfolding try_copy_to description_try_from
description_try_from-try_copy_to s dst buffer kif u h q =
    let copied : try_copy_chars s dst ≡ ok buffer = ground arith in
    let read : until_nul kif.pfik_name ≡ some s =
      ap until_nul q ∙ (try_copy_chars-until_nul s dst copied).0 in
    rw (read, u, description_try_from) refl
