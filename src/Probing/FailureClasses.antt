-- ===== src/Probing/FailureClasses.antt =====
-- worker/probing/utils/failure-classes.ts: from what the platform signals to the failure taxonomy.
-- A thrown value is a primitive or a reference into a heap of objects, so a `cause` chain may be
-- cyclic, as in the source.
pub mod Aborts
pub mod Causes
pub mod Laws
mod Tests
use probeboard_api.Common.{
  ℕ, zero, suc, min, max, refl, sym, ap, inl, inr, Bool, true, false, not, ◌&&◌, ◌||◌,
  and-eq-true_iff, Option, none, some, List, [], ◌∷◌, map, append_assoc, append-nil, arith, ltb,
  leb, ◌==◌, if◌then◌else◌, ltb→lt, lt→ltb, leb→le, ==_iff, tests, Bool-cases, Option-cases, length,
  get_elem?, get_or, take, replicate, length-append, length-take, all, any, find, All, All-append,
  Text, codes, text_eq, text_eq_iff, starts_with, includes, has, lower_unit, upper_unit,
  to_lower_case, to_upper_case,
}

pub data FailureClass : Type 0 where
  dns_nxdomain dns_failure connection_refused connection_timeout connection_reset : FailureClass
  tls_expired tls_untrusted tls_hostname_mismatch tls_handshake_failed : FailureClass
  response_timeout body_timeout status_mismatch assertion_failed : FailureClass
  too_many_redirects blocked_by_policy unknown_error : FailureClass

pub record Classification : Type 0 where
  pub failure_class : FailureClass
  pub code : Option Text

-- An own property: missing, a string, or of another type.
pub data Own : Type 0 where
  absent : Own
  text : Text → Own
  other : Own

pub data Thrown : Type 0 where
  primitive : Thrown
  object : ℕ → Thrown

-- The properties that the code reads. `proto_name` is the inherited `name`.
pub record ErrorObject : Type 0 where
  pub code : Own
  pub name : Own
  pub proto_name : Own
  pub cause : Option Thrown

abbrev pub Heap : Type 0
Heap = ℕ → ErrorObject

abbrev pub lookup_class : Text → List (Text × FailureClass) → Option FailureClass
lookup_class code [] = none
lookup_class code ((key, c) ∷ rows) = if text_eq key code then some c else lookup_class code rows

unfoldable pub signal_to_class : List (Text × FailureClass)
signal_to_class =
    (codes "ENOTFOUND", dns_nxdomain)
    ∷ (codes "EAI_AGAIN", dns_failure)
    ∷ (codes "ECONNREFUSED", connection_refused)
    ∷ (codes "UND_ERR_CONNECT_TIMEOUT", connection_timeout)
    ∷ (codes "ETIMEDOUT", connection_timeout)
    ∷ (codes "EHOSTUNREACH", connection_timeout)
    ∷ (codes "ENETUNREACH", connection_timeout)
    ∷ (codes "ECONNRESET", connection_reset)
    ∷ (codes "EPIPE", connection_reset)
    ∷ (codes "UND_ERR_SOCKET", connection_reset)
    ∷ (codes "CERT_HAS_EXPIRED", tls_expired)
    ∷ (codes "UNABLE_TO_VERIFY_LEAF_SIGNATURE", tls_untrusted)
    ∷ (codes "DEPTH_ZERO_SELF_SIGNED_CERT", tls_untrusted)
    ∷ (codes "ERR_TLS_CERT_ALTNAME_INVALID", tls_hostname_mismatch)
    ∷ (codes "EPROTO", tls_handshake_failed)
    ∷ (codes "SELF_SIGNED_CERT_IN_CHAIN", tls_untrusted)
    ∷ (codes "UNABLE_TO_GET_ISSUER_CERT", tls_untrusted)
    ∷ (codes "UNABLE_TO_GET_ISSUER_CERT_LOCALLY", tls_untrusted)
    ∷ (codes "UND_ERR_HEADERS_TIMEOUT", response_timeout)
    ∷ (codes "UND_ERR_BODY_TIMEOUT", body_timeout)
    ∷ []

unfoldable pub resolver_code_to_class : List (Text × FailureClass)
resolver_code_to_class =
    (codes "ENOTFOUND", dns_nxdomain)
    ∷ (codes "ENODATA", dns_nxdomain)
    ∷ (codes "ESERVFAIL", dns_failure)
    ∷ (codes "EREFUSED", dns_failure)
    ∷ (codes "ETIMEOUT", dns_failure)
    ∷ (codes "ECONNREFUSED", dns_failure)
    ∷ (codes "EBADRESP", dns_failure)
    ∷ (codes "ENOTIMP", dns_failure)
    ∷ (codes "EFORMERR", dns_failure)
    ∷ (codes "EAI_AGAIN", dns_failure)
    ∷ []

abbrev pub class_or_unknown : Option FailureClass → FailureClass
class_or_unknown none = unknown_error
class_or_unknown (some c) = c

unfoldable pub classify_resolver_code : Text → FailureClass
unfolding resolver_code_to_class
classify_resolver_code code = class_or_unknown (lookup_class code resolver_code_to_class)

abbrev pub max_cause_depth : ℕ
max_cause_depth = 8

abbrev pub own_string : Own → Option Text
own_string absent = none
own_string (text s) = some s
own_string other = none

-- `seen.has(current)`.
abbrev pub is_seen : ℕ → List ℕ → Bool
is_seen p seen = any (λ q. q == p) seen

abbrev pub or_else {ℓ} : {A : Type ℓ} → Option A → Option A → Option A
or_else (some a) b = some a
or_else none b = b

-- The loop of `transportCode`, with the rounds that are left.
module _ (h : Heap) where
  unfoldable mutual
    pub walk : ℕ → List ℕ → Option Thrown → Option Text
    walk zero seen current = none
    walk (suc depth) seen none = none
    walk (suc depth) seen (some primitive) = none
    walk (suc depth) seen (some (object p)) =
        let next = walk depth (p ∷ seen) (h p).cause in
        if is_seen p seen then none else or_else (own_string (h p).code) next

  unfoldable pub transport_code : Thrown → Option Text
  unfolding walk
  transport_code error = walk max_cause_depth [] (some error)

abbrev pub ssl_prefix : Text
ssl_prefix = codes "ERR_SSL_"

unfoldable pub ssl_protocol_failure : Text → Option FailureClass
ssl_protocol_failure code = if starts_with code ssl_prefix then some tls_handshake_failed else none

unfoldable pub classify_code : Text → FailureClass
unfolding signal_to_class ssl_protocol_failure
classify_code code =
    class_or_unknown (or_else (lookup_class code signal_to_class) (ssl_protocol_failure code))

abbrev pub classification_of : Option Text → Classification
classification_of none = record { failure_class = unknown_error; code = none }
classification_of (some code) = record { failure_class = classify_code code; code = some code }

unfoldable pub classify_error : Heap → Thrown → Classification
classify_error h error = classification_of (transport_code h error)

-- The boundaries of a hop, with `none` for one that was never reached.
pub record Boundaries : Type 0 where
  pub dns_start : Option ℕ
  pub dns_done : Option ℕ
  pub connect_start : Option ℕ
  pub connect_done : Option ℕ
  pub tls_start : Option ℕ
  pub tls_done : Option ℕ
  pub first_byte : Option ℕ
  pub transfer_done : Option ℕ

abbrev pub is_missing : Option ℕ → Bool
is_missing none = true
is_missing (some _) = false

unfoldable pub classify_abort : Boundaries → Bool → FailureClass
classify_abort b secure =
    if is_missing b.dns_done
    then dns_failure
    else if is_missing b.connect_done
    then connection_timeout
    else if secure && is_missing b.tls_done
    then connection_timeout
    else if is_missing b.first_byte
    then response_timeout
    else if is_missing b.transfer_done
    then body_timeout
    else unknown_error

abbrev pub is_abort_name : Own → Bool
is_abort_name (text s) = text_eq s (codes "AbortError") || text_eq s (codes "TimeoutError")
is_abort_name absent = false
is_abort_name other = false

-- A property access: the own property, else the inherited one.
abbrev pub read_name : ErrorObject → Own
read_name e = elim e.name [ absent ↦ e.proto_name | text s ↦ text s | other ↦ other ]

unfoldable pub is_abort_error : Heap → Thrown → Bool
is_abort_error h primitive = false
is_abort_error h (object p) = is_abort_name (h p).name || is_abort_name (read_name (h p))
