-- ===== src/Probing/GuardPin/Laws.antt =====
-- Which refusals of the guard are policy, and which are the name service's.
use probeboard_api.Common.{◌≡◌, refl, ◌≢◌, ◌↔◌, ◌⊎◌, inl, inr, none, some, arith}
use probeboard_api.Ssrf.{
  SsrfRejectionCode, scheme_not_allowed, credentials_in_url, port_not_allowed, url_unresolvable,
  address_not_allowed, Cause, no_cause, resolved_to, reason, SsrfError,
}
use probeboard_api.Probing.FailureClasses.{
  FailureClass, dns_nxdomain, dns_failure, blocked_by_policy, unknown_error,
}
use probeboard_api.Probing.FailureClasses.Laws.{classify_resolver_code-is_dns}
use probeboard_api.Probing.GuardPin.{classify_guard_rejection, cause_of, by_code, unresolvable}

abbrev pub IsOfNames : FailureClass → Type 0
IsOfNames c = (c ≡ unknown_error) ⊎ (c ≡ dns_nxdomain) ⊎ (c ≡ dns_failure)

of_names_not_policy : (c : FailureClass) → IsOfNames c → c ≢ blocked_by_policy
of_names_not_policy c h = ground arith

unresolvable-IsOfNames :
    (cause : Cause) → IsOfNames (by_code url_unresolvable (cause_of cause)).failure_class
unfolding by_code unresolvable
unresolvable-IsOfNames no_cause = inr (inl refl)
unresolvable-IsOfNames (resolved_to a) = inl refl
unresolvable-IsOfNames (reason none) = inl refl
unresolvable-IsOfNames (reason (some c)) = classify_resolver_code-is_dns c

-- A refusal of the guard is put down to policy exactly when its code is not that of a name that
-- does not resolve; such a name gets a class of the name service or the unknown one.
pub classify_guard_rejection_rules :
    (e : SsrfError)
    → let c = (classify_guard_rejection e).failure_class in
      ((c ≡ blocked_by_policy) ↔ (e.code ≢ url_unresolvable))
      × (e.code ≡ url_unresolvable → IsOfNames c)
unfolding classify_guard_rejection by_code
classify_guard_rejection_rules e = go e.code e.cause
  where
    go :
        (code : SsrfRejectionCode) (cause : Cause)
        → let c = (by_code code (cause_of cause)).failure_class in
          ((c ≡ blocked_by_policy) ↔ (code ≢ url_unresolvable))
          × (code ≡ url_unresolvable → IsOfNames c)
    go scheme_not_allowed cause = ((λ h n. cc, λ n. refl), λ h. cc)
    go credentials_in_url cause = ((λ h n. cc, λ n. refl), λ h. cc)
    go port_not_allowed cause = ((λ h n. cc, λ n. refl), λ h. cc)
    go address_not_allowed cause = ((λ h n. cc, λ n. refl), λ h. cc)
    go url_unresolvable cause = (
      (λ h. absurd (of_names_not_policy _ (unresolvable-IsOfNames cause) h), λ n. absurd (n refl)),
      λ h. unresolvable-IsOfNames cause,
    )
