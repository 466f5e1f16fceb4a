-- ===== src/Tests/Completing.antt =====
-- The theorem on when a commit succeeds at the small kernel.
use pfctl_rs.Common.{◌≡◌, ◌≢◌, refl, ap, sym, inl, inr, ℕ, List, [], ◌∷◌, Among, arith}
use pfctl_rs.Common.Int.{pos}
use pfctl_rs.Error.{ok, err, panic}
use pfctl_rs.Cstr.{Str}
use pfctl_rs.Ffi.{PfiocTransElem, zero_rule}
use pfctl_rs.Kernel.{ioctl_error}
use pfctl_rs.Transaction.{AnchorChange}
use pfctl_rs.Transaction.Submission.{
  filter_submission, nat_submission, redirect_submission, scrub_submission,
}
use pfctl_rs.Transaction.Going.{Obliges}
use pfctl_rs.Transaction.Completing.{FieldReady}
use pfctl_rs.Rule.Filter.{FilterRule}
use pfctl_rs.Transaction.Rulesets.{Submitted}
use pfctl_rs.Tests.Platforms.{macos}
use pfctl_rs.Tests.Kernels.{demo, rulesets, tickets}
use pfctl_rs.Tests.Transactions.{https}

not_error : pos 0 ≢ ioctl_error
not_error h = ground arith

same_ticket :
    (n : ℕ) (es : List PfiocTransElem) (e : PfiocTransElem) → Among e (tickets n es) → n ≡ e.ticket
same_ticket n [] e m = absurd m
same_ticket n (x ∷ es) e (inl q) = sym (ap (λ z. z.ticket) q)
same_ticket n (x ∷ es) e (inr m) = same_ticket n es e m

pub demo-Obliges : Obliges demo rulesets
demo-Obliges = record {
  opens = λ s. (3, refl);
  ruleset_ticket = λ s k b. 1;
  pool_ticket = λ s. 7;
  begins_addrs = λ fd a s. (not_error, refl);
  begins_addrs_keeps = λ fd a s k b. refl;
  adds_addr = λ fd a s e. not_error;
  adds_addr_keeps = λ fd a s. (refl, λ k b. refl);
  begins = λ fd t s d z. (not_error, same_ticket 1 t.array);
  adds = λ fd a s e p. not_error;
  adds_keeps = λ fd a s k b. refl;
  commits = λ fd t s h. not_error;
}

abbrev https_sent : Submitted
https_sent = elim (filter_submission https) [
  | ok p ↦ p
  | err e ↦ (zero_rule, [])
  | panic ↦ (zero_rule, [])
]

-- The change of an entry is ready if that of an equal entry is.
abbrev EntryReady : Str → AnchorChange macos → Type 0
EntryReady anchor c =
    FieldReady filter_submission anchor c.filter_rules
    × FieldReady (nat_submission {P = macos}) anchor c.nat_rules
    × FieldReady redirect_submission anchor c.redirect_rules
    × FieldReady scrub_submission anchor c.scrub_rules
