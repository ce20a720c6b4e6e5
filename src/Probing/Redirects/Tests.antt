-- ===== src/Probing/Redirects/Tests.antt =====
-- One hop of a redirect, within the origin and out of it.
use probeboard_api.Common.{◌≡◌, refl, ◌↔◌, Bool, true, false, [], ◌∷◌, arith, Text, codes}
use probeboard_api.Web.{Url, http, https}
use probeboard_api.Probing.Redirects.{
  Headers, get, method_for_redirect, default_port, origin_of, same_origin, HopHeaderInput,
  is_body_header, without_body_headers, headers_for_hop,
}
use probeboard_api.Probing.Redirects.Origins.{effective_port, same_origin_iff}
use probeboard_api.Probing.Redirects.Laws.{Has, headers_for_hop_rules}

abbrev site : Text → Text → Url
site scheme port = record {
  protocol = scheme;
  username = [];
  password = [];
  hostname = codes "a.io";
  port = port;
  pathname = codes "/";
  search = [];
  hash = [];
}

abbrev sent : Headers
sent = (codes "Content-Type", codes "text/plain") ∷ (codes "X-Key", codes "k") ∷ []

abbrev hop_to : Url → Bool → HopHeaderInput
hop_to target rewritten = record {
  headers = sent;
  target = target;
  origin = site https [];
  already_dropped = false;
  rewritten_to_get = rewritten;
}

rewrites : method_for_redirect 302 (codes "post") ≡ get
unfolding method_for_redirect
rewrites = refl

keeps :
    headers_for_hop (hop_to (site https (codes "443")) true)
    ≡ record { headers = (codes "X-Key", codes "k") ∷ []; dropped = false }
unfolding headers_for_hop same_origin origin_of default_port without_body_headers is_body_header
keeps = refl

-- A downgrade of the scheme is another origin.
drops : headers_for_hop (hop_to (site http []) false) ≡ record { headers = []; dropped = true }
unfolding headers_for_hop same_origin origin_of default_port
drops = refl

same_origin_iff_example : (same_origin (site https []) (site https (codes "443")) ≡ true) ↔ (
    (https ≡ https)
    × (codes "a.io" ≡ codes "a.io")
    × (effective_port (site https []) ≡ effective_port (site https (codes "443"))))
same_origin_iff_example =
    same_origin_iff (site https []) (site https (codes "443"))
      (record { scheme = omega arith; port = omega arith })
      (record { scheme = omega arith; port = omega arith })

headers_for_hop_rules_example :
    let hop = headers_for_hop (hop_to (site http []) false) in
    ((e : Text × Text) → Has hop.headers e → Has sent e)
    × ((e : Text × Text) → Has hop.headers e → same_origin (site http []) (site https []) ≡ true)
    × ((hop.dropped ≡ false)
        ↔ ((false ≡ false) × (same_origin (site http []) (site https []) ≡ true)))
    × (false ≡ true → (e : Text × Text) → Has hop.headers e → is_body_header e.0 ≡ false)
headers_for_hop_rules_example = headers_for_hop_rules (hop_to (site http []) false)
