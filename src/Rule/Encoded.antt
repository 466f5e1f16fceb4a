-- ===== src/Rule/Encoded.antt =====
-- The action that each kind of rule is written with.
use pfctl_rs.Common.{◌≡◌, arith}
use pfctl_rs.Error.{ok}
use pfctl_rs.Platform.{Platform}
use pfctl_rs.Ffi.{PfRule}
use pfctl_rs.Rule.Action.{filter_to_u8, nat_to_u8, redirect_to_u8, scrub_to_u8}
use pfctl_rs.Rule.Icmp
use pfctl_rs.Rule.Filter
use pfctl_rs.Rule.Filter.{FilterRule}
use pfctl_rs.Rule.Nat
use pfctl_rs.Rule.Nat.{NatRule}
use pfctl_rs.Rule.Redirect
use pfctl_rs.Rule.Redirect.{RedirectRule}
use pfctl_rs.Rule.Scrub
use pfctl_rs.Rule.Scrub.{ScrubRule}

pub filter-action :
    {P : Platform} (r : FilterRule P) (dst : PfRule) {out : PfRule}
    → Filter.try_copy_to r dst ≡ ok out
    → out.action ≡ filter_to_u8 r.action
unfolding Filter.try_copy_to Icmp.copy_to
filter-action r dst h = ground arith

pub nat-action :
    {P : Platform} (r : NatRule P) (dst : PfRule) {out : PfRule}
    → Nat.try_copy_to r dst ≡ ok out
    → out.action ≡ nat_to_u8 r.action
unfolding Nat.try_copy_to
nat-action r dst h = ground arith

pub redirect-action :
    {P : Platform} (r : RedirectRule P) (dst : PfRule) {out : PfRule}
    → Redirect.try_copy_to r dst ≡ ok out
    → out.action ≡ redirect_to_u8 r.action
unfolding Redirect.try_copy_to
redirect-action r dst h = ground arith

pub scrub-action :
    (r : ScrubRule) (dst : PfRule) {out : PfRule}
    → Scrub.try_copy_to r dst ≡ ok out
    → out.action ≡ scrub_to_u8 r.action
unfolding Scrub.try_copy_to
scrub-action r dst h = ground arith
