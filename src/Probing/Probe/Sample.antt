-- ===== src/Probing/Probe/Sample.antt =====
-- A platform with one redirect to another origin, for tests.
use probeboard_api.Common.{ℕ, zero, suc, ◌*◌, true, Option, none, some, List, [], ◌∷◌, Text, codes}
use probeboard_api.Web.{Url, UrlParser, https}
use probeboard_api.Ssrf.{Network}
use probeboard_api.Probing.Timing.{HopBoundary}
use probeboard_api.Ssrf.BlockList.{ipv4, v4}
use probeboard_api.Ssrf.{fulfilled, rejected}
use probeboard_api.Probing.BodyCap.{closed, chunk}
use probeboard_api.Probing.FailureClasses.{absent}
use probeboard_api.Probing.Timing.{connect_start, connect_done, tls_start, tls_done}
use probeboard_api.Assertions.Evaluate.{body_contains}
use probeboard_api.Probing.Probe.{
  EndpointProbeConfig, ProbeDeps, Sent, Response, Exchange, answered, Platform,
}

abbrev pub site : Text → Url
site host = record {
  protocol = https;
  username = [];
  password = [];
  hostname = host;
  port = [];
  pathname = codes "/";
  search = [];
  hash = [];
}

abbrev pub home : Url
home = site (codes "a.io")

abbrev pub parse : Text → Option Url
parse t = some home

abbrev pub join : Text → Url → Option Url
join t base = some (site (codes "b.io"))

abbrev pub urls : UrlParser
urls = record { parse = parse; join = join; to_string = λ u. u.hostname }

abbrev pub net : ℕ → Network
net hop = record {
  parse_url = λ t. some (site t);
  literal = λ t. none;
  number = λ t. 0;
  resolve4 = λ t. fulfilled (ipv4 (v4 93 184 216 34) ∷ []);
  resolve6 = λ t. rejected (some (codes "ENODATA"));
}

abbrev pub moved : Response
moved = record {
  status = 302;
  location = some (codes "https://b.io/");
  body = none;
  cancel_error = none;
}

abbrev pub found : Response
found = record {
  status = 200;
  location = none;
  body = some (chunk (codes "all ok") closed);
  cancel_error = none;
}

abbrev pub connected : List HopBoundary
connected = connect_start ∷ connect_done ∷ tls_start ∷ tls_done ∷ []

abbrev pub transport : ℕ → Sent → Exchange
transport zero s = answered connected (some 1000 ∷ []) moved
transport (suc hop) s = answered connected (some 2000 ∷ []) found

abbrev pub platform : Platform
platform = record {
  heap = λ p. record { code = absent; name = absent; proto_name = absent; cause = none };
  urls = urls;
  network = net;
  interrupts = λ hop. none;
  transport = transport;
  clock = λ reads. 10 * reads;
  wall_clock = 77;
  decode = λ b. b;
  parse_json = λ t. none;
}

abbrev pub config : EndpointProbeConfig
config = record {
  monitor_id = codes "m";
  url = codes "https://a.io/";
  method = codes "get";
  headers = (codes "X-Key", codes "k") ∷ [];
  body = none;
  expected_status = [];
  assertions = body_contains (codes "ok") ∷ [];
  timeout_ms = 5000;
  follow_redirects = true;
  max_redirects = 5;
}

abbrev pub deps : ProbeDeps
deps = record {
  ssrf = record { enabled = true; blocked_ports = [] };
  max_timeout_ms = 3000;
  max_body_bytes = 64;
  max_redirects_cap = 1;
}
