-- ===== src/Tests/TransactionProgram.antt =====
-- The theorem on examples/transaction.rs at the small kernel.
use pfctl_rs.Common.{ℕ, arith, ◌≡◌, ◌≢◌, refl, none, some, List, ◌++◌}
use pfctl_rs.Common.Int.{ℤ, pos}
use pfctl_rs.Error.{ok}
use pfctl_rs.Cstr.{zeros, until_nul}
use pfctl_rs.Ffi.{PfiocRule}
use pfctl_rs.Kernel.{ioctl_error}
use pfctl_rs.Utils.{copy_anchor_name}
use pfctl_rs.Pfctl.Finding.{position}
use pfctl_rs.Rule.Builders.{
  Builders, BuildsRules, FilterFields, RedirectFields, ScrubFields, no_filter_fields,
  no_redirect_fields, no_scrub_fields, filter_rule, redirect_rule, scrub_rule,
}
use pfctl_rs.Programs.TestAnchor.{anchor_name}
use pfctl_rs.Programs.Transaction
use pfctl_rs.Programs.TestAnchor.Kept.{InsertsElsewhere}
use pfctl_rs.Programs.Transaction.Published.{SetsThem}
use pfctl_rs.Programs.Transaction.Running.{ObligesAll, transaction_main-Ends}
use pfctl_rs.Tests.Platforms.{macos, macos-AcceptsPrefixes}
use pfctl_rs.Tests.Completing.{demo-Obliges}
use pfctl_rs.Tests.Kernels.{
  Pf, empty, demo, rulesets, demo-IsTransactional, name_in, insert_at, insert_found,
}
use pfctl_rs.Common.{map}
use pfctl_rs.Common.{Option}
use pfctl_rs.Cstr.{Str}

-- A builder is the fields that are set.
abbrev pub builders : Builders macos
builders = record {
  FilterRuleBuilder = FilterFields macos;
  filter_default = no_filter_fields macos;
  filter_action = λ x b. record b { action = some x };
  filter_quick = λ x b. record b { quick = some x };
  filter_interface = λ x b. record b { interface = some x };
  filter_proto = λ x b. record b { proto = some x };
  filter_af = λ x b. record b { af = some x };
  filter_from = λ x b. record b { from = some x };
  filter_to = λ x b. record b { to = some x };
  filter_icmp_type = λ x b. record b { icmp_type = some x };
  filter_build = filter_rule;
  RedirectRuleBuilder = RedirectFields macos;
  redirect_default = no_redirect_fields macos;
  redirect_action = λ x b. record b { action = some x };
  redirect_direction = λ x b. record b { direction = some x };
  redirect_proto = λ x b. record b { proto = some x };
  redirect_af = λ x b. record b { af = some x };
  redirect_to = λ x b. record b { to = some x };
  redirect_redirect_to = λ x b. record b { redirect_to = some x };
  redirect_build = redirect_rule;
  ScrubRuleBuilder = ScrubFields;
  scrub_default = no_scrub_fields;
  scrub_action = λ x b. record b { action = some x };
  scrub_build = scrub_rule;
}

pub builders-BuildsRules : BuildsRules macos builders
builders-BuildsRules = record {
  filter_fields = λ b. b;
  filter_starts = refl;
  filter_sets_action = λ x b. refl;
  filter_sets_quick = λ x b. refl;
  filter_sets_interface = λ x b. refl;
  filter_sets_proto = λ x b. refl;
  filter_sets_af = λ x b. refl;
  filter_sets_from = λ x b. refl;
  filter_sets_to = λ x b. refl;
  filter_sets_icmp_type = λ x b. refl;
  filter_builds = λ b. refl;
  redirect_fields = λ b. b;
  redirect_starts = refl;
  redirect_sets_action = λ x b. refl;
  redirect_sets_direction = λ x b. refl;
  redirect_sets_proto = λ x b. refl;
  redirect_sets_af = λ x b. refl;
  redirect_sets_to = λ x b. refl;
  redirect_sets_redirect_to = λ x b. refl;
  redirect_builds = λ b. refl;
  scrub_fields = λ b. b;
  scrub_starts = refl;
  scrub_sets_action = λ x b. refl;
  scrub_builds = λ b. refl;
}

found-active :
    (a : PfiocRule) (s : Pf) (i : Option ℕ) (k : ℤ) (b : List ℕ)
    → (insert_found a s i).1.active k b ≡ s.active k b
found-active a s none k b = refl
found-active a s (some i) k b = refl

insert-active :
    (a : PfiocRule) (name : Option Str) (s : Pf) (k : ℤ) (b : List ℕ)
    → (insert_at a name s).1.active k b ≡ s.active k b
insert-active a none s k b = refl
insert-active a (some name) s k b =
    found-active a s (position name 0 (map name_in (s.anchors a.rule.action))) k b

pub demo-InsertsElsewhere : InsertsElsewhere rulesets
demo-InsertsElsewhere fd a s k b h = insert-active a (until_nul a.anchor_call) s k b

abbrev pub test_anchor : List ℕ
test_anchor = anchor_name ++ zeros 1013

pub test_anchor-eq : copy_anchor_name anchor_name (zeros 1024) ≡ ok test_anchor
unfolding copy_anchor_name pfctl_rs.Cstr.try_copy_chars zeros
test_anchor-eq = refl

not_error : pos 0 ≢ ioctl_error
not_error h = ground arith

found-errno :
    (a : PfiocRule) (s : Pf) (i : Option ℕ)
    → (insert_found a s i).0.ret ≡ ioctl_error
    → (insert_found a s i).0.errno ≡ 17
found-errno a s none h = absurd (not_error h)
found-errno a s (some i) h = refl

insert-errno :
    (a : PfiocRule) (o : Option Str) (s : Pf) (name : Str)
    → o ≡ some name
    → (insert_at a o s).0.ret ≡ ioctl_error
    → (insert_at a o s).0.errno ≡ 17
insert-errno a none s name e h = absurd (ground arith)
insert-errno a (some x) s name e h =
    found-errno a s (position x 0 (map name_in (s.anchors a.rule.action))) h

demo-ObligesAll : ObligesAll macos demo rulesets
demo-ObligesAll = record {
  obliges = demo-Obliges;
  inserts = λ fd a s name e h. insert-errno a (until_nul a.anchor_call) s name e h;
}

transaction_main-Ends_example :
    ((Transaction.main macos builders demo empty).0 ≡ ok tt)
    × SetsThem macos builders builders-BuildsRules rulesets demo-IsTransactional
        demo-InsertsElsewhere test_anchor test_anchor-eq empty
        (Transaction.main macos builders demo empty).1
transaction_main-Ends_example =
    transaction_main-Ends macos macos-AcceptsPrefixes builders builders-BuildsRules rulesets
      demo-IsTransactional demo-InsertsElsewhere demo-ObligesAll test_anchor test_anchor-eq empty
