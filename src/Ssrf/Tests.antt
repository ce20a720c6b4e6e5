-- ===== src/Ssrf/Tests.antt =====
-- The guard on a small network.
use probeboard_api.Common.{◌≡◌, refl, true, false, none, some, [], ◌∷◌, arith, any, codes}
use probeboard_api.Web.{Url, https}
use probeboard_api.Ssrf.BlockList.{
  ipv4, ipv6, v4, v6, check, block_list, block_list4, block_list6, global_exceptions, rule_matches,
  same_prefix, is_blocked_address,
}
use probeboard_api.Ssrf.{
  url_unresolvable, reason, SsrfGuardConfig, ValidatedUrl, valid, invalid, Answer, fulfilled,
  rejected, Network, assert_saveable_url, validate_url, guard_host, admit, bare_hostname,
  resolve_all, family_addresses,
}
use probeboard_api.Ssrf.Ranges.{reserved, inside, is_blocked_address-eq-reserved}
use probeboard_api.Ssrf.Safety.{IsSaveable, assert_saveable_url-IsSaveable}

abbrev page : Url
page = record {
  protocol = https;
  username = [];
  password = [];
  hostname = codes "a.io.";
  port = [];
  pathname = codes "/";
  search = [];
  hash = [];
}

-- A host with one IPv4 record; `net` is given what that record is.
abbrev world : Answer → Answer → Network
world first second = record {
  parse_url = λ t. some page;
  literal = λ t. none;
  number = λ t. 0;
  resolve4 = λ t. first;
  resolve6 = λ t. second;
}

abbrev guard : SsrfGuardConfig
guard = record { enabled = true; blocked_ports = 25 ∷ [] }

abbrev public : Answer
public = fulfilled (ipv4 (v4 93 184 216 34) ∷ [])

abbrev no_data : Answer
no_data = rejected (some (codes "ENODATA"))

abbrev seen : ValidatedUrl
seen = record { hostname = codes "a.io"; addresses = ipv4 (v4 93 184 216 34) ∷ []; port = none }

public_open : is_blocked_address (ipv4 (v4 93 184 216 34)) ≡ false
unfolding is_blocked_address check rule_matches same_prefix block_list block_list4 block_list6
    global_exceptions
public_open = refl

mapped_loopback : is_blocked_address (ipv6 (v6 0 0 0 0 0 0xffff 0x7f00 1)) ≡ true
unfolding is_blocked_address check rule_matches same_prefix block_list block_list4 block_list6
    global_exceptions
mapped_loopback = refl

abbrev Accepted : Type 0
Accepted = assert_saveable_url (world public no_data) (codes "https://a.io./") guard ≡ valid seen

accepts : Accepted
unfolding assert_saveable_url validate_url guard_host bare_hostname resolve_all family_addresses
    admit is_blocked_address check rule_matches same_prefix block_list block_list4 block_list6
    global_exceptions
accepts = refl

-- One family that is not known is a refusal, whatever the other answers.
fails_closed :
    assert_saveable_url
      (world public (rejected (some (codes "ESERVFAIL"))))
      (codes "https://a.io./")
      guard
    ≡ invalid (record { code = url_unresolvable; cause = reason (some (codes "ESERVFAIL")) })
unfolding assert_saveable_url validate_url guard_host bare_hostname resolve_all family_addresses
fails_closed = refl

is_blocked_address-eq-reserved_example :
    is_blocked_address (ipv4 (v4 172 31 0 1)) ≡ any (inside (v4 172 31 0 1)) reserved
is_blocked_address-eq-reserved_example =
    is_blocked_address-eq-reserved (v4 172 31 0 1) (omega arith)

assert_saveable_url-IsSaveable_example :
    IsSaveable (world public no_data) (codes "https://a.io./") guard seen
assert_saveable_url-IsSaveable_example =
    assert_saveable_url-IsSaveable (world public no_data) (codes "https://a.io./") guard seen
      accepts
