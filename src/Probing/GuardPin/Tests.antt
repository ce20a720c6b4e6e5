-- ===== src/Probing/GuardPin/Tests.antt =====
-- A name whose server failed, and an address that is not allowed.
use probeboard_api.Common.{◌≡◌, refl, ◌≢◌, ◌↔◌, some, codes}
use probeboard_api.Ssrf.BlockList.{ipv4}
use probeboard_api.Ssrf.{url_unresolvable, address_not_allowed, resolved_to, reason, SsrfError}
use probeboard_api.Probing.FailureClasses.{
  dns_failure, blocked_by_policy, classify_resolver_code, resolver_code_to_class,
}
use probeboard_api.Probing.GuardPin.{classify_guard_rejection}
use probeboard_api.Probing.GuardPin.Laws.{IsOfNames, classify_guard_rejection_rules}

abbrev server_failed : SsrfError
server_failed = record { code = url_unresolvable; cause = reason (some (codes "ESERVFAIL")) }

names_server :
    classify_guard_rejection server_failed
    ≡ record { failure_class = dns_failure; code = some (codes "ESERVFAIL") }
unfolding classify_guard_rejection classify_resolver_code resolver_code_to_class
names_server = refl

names_policy :
    classify_guard_rejection (record { code = address_not_allowed; cause = resolved_to (ipv4 1) })
    ≡ record { failure_class = blocked_by_policy; code = some (codes "ADDRESS_NOT_ALLOWED") }
unfolding classify_guard_rejection
names_policy = refl

classify_guard_rejection_rules_example :
    let c = (classify_guard_rejection server_failed).failure_class in
    ((c ≡ blocked_by_policy) ↔ (server_failed.code ≢ url_unresolvable))
    × (server_failed.code ≡ url_unresolvable → IsOfNames c)
classify_guard_rejection_rules_example = classify_guard_rejection_rules server_failed
