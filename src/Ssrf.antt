-- ===== src/Ssrf.antt =====
-- core/ssrf/host-validator.ts: whether a URL may be stored, and connected to.
-- `net.isIP` with the number of the literal, the URL parser and the
-- resolver are parameters.
pub mod BlockList
pub mod Ranges
pub mod Safety
mod Tests
use probeboard_api.Common.{
  ℕ, zero, suc, min, max, refl, sym, ap, inl, inr, Bool, true, false, not, ◌&&◌, ◌||◌,
  and-eq-true_iff, Option, none, some, List, [], ◌∷◌, ◌++◌, map, append_assoc, append-nil, arith,
  ltb, leb, ◌==◌, if◌then◌else◌, ltb→lt, lt→ltb, leb→le, ==_iff, tests, Bool-cases, Option-cases,
  length, get_elem?, get_or, take, replicate, length-append, length-take, all, any, find, All,
  All-append, Text, codes, text_eq, text_eq_iff, starts_with, includes, has, lower_unit, upper_unit,
  to_lower_case, to_upper_case,
}
use probeboard_api.Web.{Url, http, https}
use probeboard_api.Ssrf.BlockList.{Address, is_blocked_address}

pub data SsrfRejectionCode : Type 0 where
  scheme_not_allowed credentials_in_url port_not_allowed url_unresolvable address_not_allowed :
      SsrfRejectionCode

-- What is attached as the error's `cause`: nothing, the blocked address, or the resolver's reason
-- with its code, if it has one.
pub data Cause : Type 0 where
  no_cause : Cause
  resolved_to : Address → Cause
  reason : Option Text → Cause

pub record SsrfError : Type 0 where
  pub code : SsrfRejectionCode
  pub cause : Cause

pub record SsrfGuardConfig : Type 0 where
  pub enabled : Bool
  pub blocked_ports : List ℕ

pub record ValidatedUrl : Type 0 where
  pub hostname : Text
  pub addresses : List Address
  pub port : Option ℕ

pub data Validation (A : Type 0) : Type 0 where
  valid : A → Validation A
  invalid : SsrfError → Validation A

infixl 5 ◌>>=◌ ◌>>◌
abbrev pub ◌>>=◌ : {A B : Type 0} → Validation A → (A → Validation B) → Validation B
valid a >>= f = f a
invalid e >>= f = invalid e

abbrev pub ◌>>◌ : {B : Type 0} → Validation (Unit {0}) → Validation B → Validation B
m >> k = m >>= λ _. k

abbrev pub refuse : {A : Type 0} → SsrfRejectionCode → Validation A
refuse code = invalid (record { code = code; cause = no_cause })

abbrev pub require : Bool → SsrfRejectionCode → Validation (Unit {0})
require true code = valid tt
require false code = refuse code

-- How one family's query settled.
pub data Answer : Type 0 where
  fulfilled : List Address → Answer
  rejected : Option Text → Answer

-- What the platform supplies: `new URL`, `net.isIP` with the literal's value, and the resolver.
pub record Network : Type 0 where
  pub parse_url : Text → Option Url
  pub literal : Text → Option Address
  pub number : Text → ℕ
  pub resolve4 : Text → Answer
  pub resolve6 : Text → Answer

abbrev pub blocked_hostnames : List Text
blocked_hostnames = codes "metadata.google.internal" ∷ codes "metadata.internal" ∷ []

abbrev pub no_record_codes : List Text
no_record_codes = codes "ENOTFOUND" ∷ codes "ENODATA" ∷ []

-- `code` is set and is one of the definitive negatives. An empty code is falsy.
abbrev pub is_no_record : Option Text → Bool
is_no_record none = false
is_no_record (some code) = has no_record_codes code

-- One round of the loop of `resolveAll`.
unfoldable pub family_addresses : Answer → Validation (List Address)
family_addresses (fulfilled addresses) = valid addresses
family_addresses (rejected code) =
    if is_no_record code
    then valid []
    else invalid (record { code = url_unresolvable; cause = reason code })

-- The last character, and the text without it.
abbrev pub ends_with : Text → ℕ → Bool
ends_with [] c = false
ends_with (a ∷ []) c = a == c
ends_with (a ∷ b ∷ s) c = ends_with (b ∷ s) c

abbrev pub drop_last : Text → Text
drop_last [] = []
drop_last (a ∷ []) = []
drop_last (a ∷ b ∷ s) = a ∷ drop_last (b ∷ s)

abbrev pub unbracket : Text → Text
unbracket [] = []
unbracket (a ∷ s) = if (a == b'[') && ends_with (a ∷ s) b']' then drop_last s else a ∷ s

abbrev pub undot : Text → Text
undot s = if ends_with s b'.' then drop_last s else s

unfoldable pub bare_hostname : Url → Text
bare_hostname url = undot (unbracket (to_lower_case url.hostname))

abbrev pub literal_or : Option Address → Validation (List Address) → Validation (List Address)
literal_or (some a) resolved = valid (a ∷ [])
literal_or none resolved = resolved

abbrev pub admitted : Text → Option ℕ → List Address → Option Address → Validation ValidatedUrl
admitted hostname port addresses (some blocked) =
    invalid (record { code = address_not_allowed; cause = resolved_to blocked })
admitted hostname port addresses none =
    valid (record { hostname = hostname; addresses = addresses; port = port })

-- What follows once the addresses are known.
unfoldable pub admit : Text → Option ℕ → List Address → Validation ValidatedUrl
admit hostname port [] = refuse url_unresolvable
admit hostname port (a ∷ as') = admitted hostname port (a ∷ as') (find is_blocked_address (a ∷ as'))

module _ (net : Network) where
  unfoldable pub resolve_all : Text → Validation (List Address)
  unfolding family_addresses
  resolve_all hostname = do
    v4s ← family_addresses (net.resolve4 hostname)
    v6s ← family_addresses (net.resolve6 hostname)
    valid (v4s ++ v6s)

  abbrev pub port_of : Url → Option ℕ
  port_of url = if text_eq url.port [] then none else some (net.number url.port)

  abbrev pub effective_port : Url → ℕ
  effective_port url = elim (port_of url) [
    | some p ↦ p
    | none ↦ if text_eq url.protocol https then 443 else 80
  ]

  abbrev pub addresses_of : Text → Validation (List Address)
  addresses_of hostname = literal_or (net.literal hostname) (resolve_all hostname)

  abbrev pub parsed : Text → Validation Url
  parsed raw = elim (net.parse_url raw) [ some url ↦ valid url | none ↦ refuse scheme_not_allowed ]

  -- From the resolution of the host on.
  unfoldable pub guard_host : Text → Option ℕ → Validation ValidatedUrl
  guard_host hostname port = do addresses ← addresses_of hostname; admit hostname port addresses

  -- From the parsed URL on.
  unfoldable pub validate_url : SsrfGuardConfig → Url → Validation ValidatedUrl
  validate_url cfg url = do
    require (text_eq url.protocol http || text_eq url.protocol https) scheme_not_allowed
    require (text_eq url.username [] && text_eq url.password []) credentials_in_url
    require (not (any (λ p. p == effective_port url) cfg.blocked_ports)) port_not_allowed
    let hostname = bare_hostname url
    require (not (has blocked_hostnames hostname)) address_not_allowed
    if not cfg.enabled
        then valid (record { hostname = hostname; addresses = []; port = port_of url })
        else guard_host hostname (port_of url)

  unfoldable pub assert_saveable_url : Text → SsrfGuardConfig → Validation ValidatedUrl
  assert_saveable_url raw cfg = parsed raw >>= validate_url cfg
