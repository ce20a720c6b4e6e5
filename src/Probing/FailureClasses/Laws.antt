-- ===== src/Probing/FailureClasses/Laws.antt =====
-- What a classification may say.
use probeboard_api.Common.{
  ◌≡◌, refl, ◌↔◌, ◌⊎◌, inl, inr, Bool, true, false, and-eq-true_iff, Option, none, some, List, [],
  ◌∷◌, arith, Bool-cases, Option-cases, all, Text, starts_with,
}
use mathlib.Core.Path.{subst}
use probeboard_api.Probing.FailureClasses.{
  FailureClass, dns_nxdomain, dns_failure, status_mismatch, assertion_failed, too_many_redirects,
  blocked_by_policy, unknown_error, Heap, Thrown, lookup_class, signal_to_class,
  resolver_code_to_class, classify_resolver_code, ssl_prefix, ssl_protocol_failure, classify_code,
  classify_error, transport_code,
}

-- The classes that a transport error can have, `unknown_error` apart.
abbrev pub is_transport_class : FailureClass → Bool
is_transport_class status_mismatch = false
is_transport_class assertion_failed = false
is_transport_class too_many_redirects = false
is_transport_class blocked_by_policy = false
is_transport_class unknown_error = false
is_transport_class _ = true

abbrev is_dns_class : FailureClass → Bool
is_dns_class dns_nxdomain = true
is_dns_class dns_failure = true
is_dns_class _ = false

abbrev RowsHave : (FailureClass → Bool) → List (Text × FailureClass) → Type 0
RowsHave p rows = all (λ row. p row.1) rows ≡ true

lookup_class-RowsHave :
    (p : FailureClass → Bool) (code : Text) (rows : List (Text × FailureClass)) (c : FailureClass)
    → RowsHave p rows
    → lookup_class code rows ≡ some c
    → p c ≡ true
lookup_class-RowsHave p code [] c h e = cc
lookup_class-RowsHave p code ((key, d) ∷ rows) c h e =
    let (here, later) = (and-eq-true_iff (p d) (all (λ row. p row.1) rows)).0 h in
    ground (arith, lookup_class-RowsHave p code rows c later)

signals-RowsHave : RowsHave is_transport_class signal_to_class
unfolding signal_to_class
signals-RowsHave = refl

resolver_codes-RowsHave : RowsHave is_dns_class resolver_code_to_class
unfolding resolver_code_to_class
resolver_codes-RowsHave = refl

-- A code is mapped by its row, or else by the prefix of the OpenSSL family.
abbrev pub IsUnmapped : Text → Type 0
IsUnmapped code = (lookup_class code signal_to_class ≡ none) × (starts_with code ssl_prefix ≡ false)

classify_code-rules :
    (code : Text)
    → ((classify_code code ≡ unknown_error) ↔ IsUnmapped code)
      × ((classify_code code ≡ unknown_error) ⊎ (is_transport_class (classify_code code) ≡ true))
unfolding classify_code ssl_protocol_failure
classify_code-rules code = elim (Option-cases (lookup_class code signal_to_class)) [
  | inr (c, found) ↦
      let good =
        lookup_class-RowsHave is_transport_class code signal_to_class c signals-RowsHave found in
      rw found ((λ e. absurd (unknown-ne c good e), λ u. absurd (none-ne-some refl u.0)), inr good)
  | inl missed ↦ elim (Bool-cases (starts_with code ssl_prefix)) [
    | inl ssl ↦ rw (missed, ssl) ((λ e. cc, λ u. cc), inr refl)
    | inr plain ↦ rw (missed, plain) ((λ e. (refl, refl), λ u. refl), inl refl)
  ]
]
  where
    unknown-ne : (c : FailureClass) → is_transport_class c ≡ true → c ≡ unknown_error → ⊥
    unknown-ne c good e = let bad : is_transport_class c ≡ false = rw e in cc

    none-ne-some : {c : FailureClass} {o : Option FailureClass} → o ≡ some c → o ≡ none → ⊥
    none-ne-some p q = cc

-- A thrown error keeps its raw code; it is unknown exactly when no code was found or the code is in
-- no table; and it is never given a class that is a judgement on the response or on policy.
pub classify_error_rules :
    (h : Heap) (error : Thrown)
    → let c = classify_error h error in
      (c.code ≡ transport_code h error)
      × ((c.failure_class ≡ unknown_error)
          ↔ ((code : Text) → transport_code h error ≡ some code → IsUnmapped code))
      × ((c.failure_class ≡ unknown_error) ⊎ (is_transport_class c.failure_class ≡ true))
unfolding classify_error
classify_error_rules h error = elim (Option-cases (transport_code h error)) [
  | inl missed ↦ rw missed (refl, (λ e code p. cc, λ u. refl), inl refl)
  | inr (code, found) ↦
      let (unknown, mapped) = classify_code-rules code in
      rw found (
        refl,
        (λ e d same. subst IsUnmapped (ground arith) (unknown.0 e), λ u. unknown.1 (u code refl)),
        mapped,
      )
]

-- A resolver's code is a DNS class or unknown: never the endpoint's own failure.
pub classify_resolver_code-is_dns :
    (code : Text)
    → (classify_resolver_code code ≡ unknown_error)
      ⊎ (classify_resolver_code code ≡ dns_nxdomain)
      ⊎ (classify_resolver_code code ≡ dns_failure)
unfolding classify_resolver_code
classify_resolver_code-is_dns code =
    elim (Option-cases (lookup_class code resolver_code_to_class)) [
      | inl missed ↦ rw missed (inl refl)
      | inr (c, found) ↦ rw found (
          dns c (
            lookup_class-RowsHave is_dns_class code resolver_code_to_class c resolver_codes-RowsHave
              found))
    ]
  where
    dns :
        (c : FailureClass)
        → is_dns_class c ≡ true
        → (c ≡ unknown_error) ⊎ (c ≡ dns_nxdomain) ⊎ (c ≡ dns_failure)
    dns c h = ground arith
