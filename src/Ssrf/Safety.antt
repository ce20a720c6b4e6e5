-- ===== src/Ssrf/Safety.antt =====
-- What an accepted URL guarantees, and that the guard fails closed.
use probeboard_api.Common.{
  ℕ, ◌≡◌, refl, sym, ◌≢◌, ◌⊎◌, inl, inr, Bool, true, false, not, ◌&&◌, ◌||◌, and-eq-true_iff,
  Option, none, some, List, [], ◌∷◌, ◌++◌, arith, ◌==◌, if◌then◌else◌, Bool-cases, Option-cases,
  any, find, All, Text, text_eq, text_eq_iff, has,
}
use mathlib.Core.Path.{subst}
use probeboard_api.Web.{Url, http, https}
use probeboard_api.Ssrf.BlockList.{Address, is_blocked_address}
use probeboard_api.Ssrf.{
  scheme_not_allowed, credentials_in_url, port_not_allowed, address_not_allowed, SsrfGuardConfig,
  ValidatedUrl, Validation, valid, invalid, ◌>>=◌, ◌>>◌, require, Answer, fulfilled, rejected,
  Network, blocked_hostnames, is_no_record, family_addresses, bare_hostname, resolve_all, port_of,
  effective_port, addresses_of, admit, admitted, guard_host, validate_url, parsed,
  assert_saveable_url,
}

-- The answer is known: addresses, or a definitive negative.
abbrev pub Definite : Answer → List Address → Type 0
Definite (fulfilled found) addresses = addresses ≡ found
Definite (rejected code) addresses = (addresses ≡ []) × (is_no_record code ≡ true)

module _ (net : Network) where
  -- Where the addresses of a host come from: the literal itself, or both families' records.
  abbrev pub Resolves : Text → List Address → Type 0
  Resolves hostname addresses =
      ((a : Address) × (net.literal hostname ≡ some a) × (addresses ≡ a ∷ []))
      ⊎ ((net.literal hostname ≡ none)
          × ((v4s : List Address) × (v6s : List Address) × Definite (net.resolve4 hostname) v4s
              × Definite (net.resolve6 hostname) v6s
              × (addresses ≡ v4s ++ v6s)))

  abbrev NotBlocked : Address → Type 0
  NotBlocked a = is_blocked_address a ≡ false

  pub record IsSaveable (raw : Text) (cfg : SsrfGuardConfig) (v : ValidatedUrl) : Type 0 where
    pub url : Url
    pub parses : net.parse_url raw ≡ some url
    pub scheme : (url.protocol ≡ http) ⊎ (url.protocol ≡ https)
    pub bare : (url.username ≡ []) × (url.password ≡ [])
    pub open_port : any (λ p. p == effective_port net url) cfg.blocked_ports ≡ false
    pub host : v.hostname ≡ bare_hostname url
    pub named : has blocked_hostnames v.hostname ≡ false
    pub port : v.port ≡ port_of net url
    pub unguarded : cfg.enabled ≡ false → v.addresses ≡ []
    pub guarded :
        cfg.enabled ≡ true
        → (v.addresses ≢ [])
          × Resolves v.hostname v.addresses
          × All (λ a. is_blocked_address a ≡ false) v.addresses

  family-Definite :
      (x : Answer) (as' : List Address) → family_addresses x ≡ valid as' → Definite x as'
  unfolding family_addresses
  family-Definite (fulfilled found) as' e = ground arith
  family-Definite (rejected code) as' e = ground arith

  find-none : (as' : List Address) → find is_blocked_address as' ≡ none → All NotBlocked as'
  find-none [] e = tt
  find-none (a ∷ as') e = let later = find-none as' in ground (arith, later)

  admitted-valid :
      (hostname : Text) (port : Option ℕ) (addresses : List Address) (found : Option Address)
      (v : ValidatedUrl)
      → admitted hostname port addresses found ≡ valid v
      → (found ≡ none) × (v.hostname ≡ hostname) × (v.port ≡ port) × (v.addresses ≡ addresses)
  admitted-valid hostname port addresses none v e = ground arith
  admitted-valid hostname port addresses (some b) v e = cc

  admit-valid :
      (hostname : Text) (port : Option ℕ) (addresses : List Address) (v : ValidatedUrl)
      → admit hostname port addresses ≡ valid v
      → (v.hostname ≡ hostname)
        × (v.port ≡ port)
        × (v.addresses ≡ addresses)
        × (addresses ≢ [])
        × All NotBlocked addresses
  unfolding admit
  admit-valid hostname port [] v e = cc
  admit-valid hostname port (a ∷ as') v e =
      let (clear, host, same, found) = admitted-valid hostname port (a ∷ as') _ v e in
      (host, same, found, λ n. cc, find-none (a ∷ as') clear)

  bind-valid :
      {A B : Type 0} (m : Validation A) (f : A → Validation B) (b : B)
      → (m >>= f) ≡ valid b
      → (a : A) × (m ≡ valid a) × (f a ≡ valid b)
  bind-valid (valid a) f b e = (a, refl, e)
  bind-valid (invalid x) f b e = cc

  resolve_all-valid :
      (hostname : Text) (addresses : List Address)
      → resolve_all net hostname ≡ valid addresses
      → (v4s : List Address) × (v6s : List Address) × Definite (net.resolve4 hostname) v4s
        × Definite (net.resolve6 hostname) v6s
        × (addresses ≡ v4s ++ v6s)
  unfolding resolve_all
  resolve_all-valid hostname addresses e =
      let (v4s, p, e1) =
        bind-valid (family_addresses (net.resolve4 hostname))
          (λ v4s. family_addresses (net.resolve6 hostname) >>= λ v6s. valid (v4s ++ v6s)) addresses
          e in
      let (v6s, q, e2) =
        bind-valid (family_addresses (net.resolve6 hostname)) (λ v6s. valid (v4s ++ v6s)) addresses
          e1 in
      (
        v4s,
        v6s,
        family-Definite (net.resolve4 hostname) v4s p,
        family-Definite (net.resolve6 hostname) v6s q,
        ground arith,
      )

  addresses_of-valid :
      (hostname : Text) (addresses : List Address)
      → addresses_of net hostname ≡ valid addresses
      → Resolves hostname addresses
  addresses_of-valid hostname addresses e = elim (Option-cases (net.literal hostname)) [
    | inr (a, found) ↦ inl (a, found, ground arith)
    | inl missed ↦ inr (missed, resolve_all-valid hostname addresses (rw missed at e))
  ]

  guard_host-valid :
      (hostname : Text) (port : Option ℕ) (v : ValidatedUrl)
      → guard_host net hostname port ≡ valid v
      → (v.hostname ≡ hostname)
        × (v.port ≡ port)
        × (v.addresses ≢ [])
        × Resolves hostname v.addresses
        × All NotBlocked v.addresses
  unfolding guard_host
  guard_host-valid hostname port v e =
      let (addresses, p, e1) = bind-valid (addresses_of net hostname) (admit hostname port) v e in
      let (host, same, found, some', clear) = admit-valid hostname port addresses v e1 in
      rw found (host, same, some', addresses_of-valid hostname addresses p, clear)

  abbrev host_or_none : SsrfGuardConfig → Url → Validation ValidatedUrl
  host_or_none cfg url =
      if not cfg.enabled
      then valid (record { hostname = bare_hostname url; addresses = []; port = port_of net url })
      else guard_host net (bare_hostname url) (port_of net url)

  gates :
      (a b c d : Bool) (rest : Validation ValidatedUrl) (v : ValidatedUrl)
      → (do
        require a scheme_not_allowed
        require b credentials_in_url
        require c port_not_allowed
        require d address_not_allowed
        rest)
        ≡ valid v
      → (a ≡ true) × (b ≡ true) × (c ≡ true) × (d ≡ true) × (rest ≡ valid v)
  gates true true true true rest v e = (refl, refl, refl, refl, e)
  gates true true true false rest v e = cc
  gates true true false d rest v e = cc
  gates true false c d rest v e = cc
  gates false b c d rest v e = cc

  of_not : (b : Bool) → not b ≡ true → b ≡ false
  of_not true e = cc
  of_not false e = refl

  either_scheme :
      (url : Url)
      → text_eq url.protocol http || text_eq url.protocol https ≡ true
      → (url.protocol ≡ http) ⊎ (url.protocol ≡ https)
  either_scheme url e = elim (Bool-cases (text_eq url.protocol http)) [
    | inl plain ↦ inl ((text_eq_iff _ _).0 plain)
    | inr other ↦ inr ((text_eq_iff _ _).0 (rw other at e))
  ]

  no_credentials :
      (url : Url)
      → text_eq url.username [] && text_eq url.password [] ≡ true
      → (url.username ≡ []) × (url.password ≡ [])
  no_credentials url e =
      let (u, p) = (and-eq-true_iff _ _).0 e in ((text_eq_iff _ _).0 u, (text_eq_iff _ _).0 p)

  abbrev Host : SsrfGuardConfig → Url → ValidatedUrl → Type 0
  Host cfg url v =
      (v.hostname ≡ bare_hostname url)
      × (v.port ≡ port_of net url)
      × (cfg.enabled ≡ false → v.addresses ≡ [])
      × (cfg.enabled ≡ true
          → (v.addresses ≢ [])
            × Resolves v.hostname v.addresses
            × All (λ a. is_blocked_address a ≡ false) v.addresses)

  host_or_none-Host :
      (cfg : SsrfGuardConfig) (url : Url) (v : ValidatedUrl)
      → host_or_none cfg url ≡ valid v
      → Host cfg url v
  host_or_none-Host cfg url v e = elim (Bool-cases cfg.enabled) [
    | inr off ↦
        let same : valid
              (record { hostname = bare_hostname url; addresses = []; port = port_of net url })
            ≡ valid v =
          rw off at e in
        (cc same, cc same, λ _. cc same, λ on. cc (off, on))
    | inl on ↦
        let (host, same, some', found, clear) =
          guard_host-valid (bare_hostname url) (port_of net url) v (rw on at e) in
        (
          host,
          same,
          λ off. cc (off, on),
          λ _. (some', subst (λ h. Resolves h v.addresses) (sym host) found, clear),
        )
  ]

  parsed-valid :
      (raw : Text) (url : Url) → parsed net raw ≡ valid url → net.parse_url raw ≡ some url
  parsed-valid raw url e = ground arith

  -- An accepted URL is absolute http or https, carries no credentials, uses no blocked port and no
  -- blocked name; with the guard on, its host resolved definitely to at least one address, every
  -- address found is kept, and none of them is blocked.
  pub assert_saveable_url-IsSaveable :
      (raw : Text) (cfg : SsrfGuardConfig) (v : ValidatedUrl)
      → assert_saveable_url net raw cfg ≡ valid v
      → IsSaveable raw cfg v
  unfolding assert_saveable_url validate_url
  assert_saveable_url-IsSaveable raw cfg v e =
      let (url, p, e1) = bind-valid (parsed net raw) (validate_url net cfg) v e in
      let (a, b, c, d, e2) =
        gates (text_eq url.protocol http || text_eq url.protocol https)
          (text_eq url.username [] && text_eq url.password [])
          (not (any (λ q. q == effective_port net url) cfg.blocked_ports))
          (not (has blocked_hostnames (bare_hostname url))) (host_or_none cfg url) v e1 in
      let (host, port, off, on) = host_or_none-Host cfg url v e2 in
      record {
        url = url;
        parses = parsed-valid raw url p;
        scheme = either_scheme url a;
        bare = no_credentials url b;
        open_port = of_not _ c;
        host = host;
        named = rw host (of_not _ d);
        port = port;
        unguarded = off;
        guarded = on;
      }
