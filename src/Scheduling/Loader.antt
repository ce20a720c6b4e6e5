-- ===== src/Scheduling/Loader.antt =====
-- worker/scheduler/services/monitor-loader.service.ts and core/registration/url.ts: the
-- configuration that a slot is probed with, read in one transaction. The database is what its one
-- snapshot answers, and the clock is read once at the start and once before each statement. The
-- headers keep the order they are set in.
mod Sent
mod Laws
mod Tests
use probeboard_api.Common.{
  ℕ, zero, suc, ◌+◌, ◌-◌, min, max, refl, sym, ap, inl, inr, Bool, true, false, not,
  and-eq-true_iff, Option, none, some, List, [], ◌∷◌, ◌++◌, map, append_assoc, append-nil, arith,
  ltb, leb, if◌then◌else◌, ltb→lt, lt→ltb, leb→le, ==_iff, tests, Bool-cases, Option-cases, length,
  get_elem?, get_or, take, replicate, length-append, length-take, all, any, find, All, All-append,
  ℤ, pos, negsuc, sub_ℕ, Text, codes, text_eq, text_eq_iff, starts_with, includes, has, lower_unit,
  upper_unit, to_lower_case, to_upper_case,
}
use probeboard_api.Web.{Url, UrlParser}
use probeboard_api.Assertions.Evaluate.{EndpointAssertion}
use probeboard_api.Probing.BodyCap.{Bytes}
use probeboard_api.Probing.Redirects.{Headers}
use probeboard_api.Probing.Probe.{StatusRange, EndpointProbeConfig}
use probeboard_api.Headers.Cipher.{GcmCipher}
use probeboard_api.Headers.Rows.{Header, merge_header_rows, sent_value, ◌>>=◌}

pub record EndpointRow : Type 0 where
  pub id : Text
  pub service_id : Text
  pub path : Text
  pub method : Text
  pub expected_status : List StatusRange
  pub assertions : List EndpointAssertion
  pub timeout_ms : ℕ
  pub follow_redirects : Bool
  pub max_redirects : ℕ

pub record ServiceRow : Type 0 where
  pub id : Text
  pub base_url : Text

pub record Snapshot : Type 0 where
  pub endpoint : Text → Option EndpointRow
  pub service : Text → Option ServiceRow
  pub service_headers : Text → List Header
  pub endpoint_headers : Text → List Header

pub data Loaded : Type 0 where
  loaded : EndpointProbeConfig → Loaded
  monitor_not_found : Loaded
  bad_header : Loaded
  bad_url : Loaded

-- `headers[name] = value` on an object, on which `__proto__` is no key of its own.
abbrev pub put : Text → Text → Headers → Headers
put name value [] = if text_eq name (codes "__proto__") then [] else (name, value) ∷ []
put name value ((k, v) ∷ headers) =
    let rest = put name value headers in
    if text_eq k name then (k, value) ∷ headers else (k, v) ∷ rest

-- The URL parser and the platform's `origin` of a URL.
unfoldable pub effective_url : UrlParser → (Url → Text) → Text → Text → Option Text
effective_url urls origin base_url path = do
  base ← urls.parse base_url
  joined ← urls.join path base
  if not (text_eq (origin joined) base_url) then none else some (urls.to_string joined)

abbrev pub config_of : EndpointRow → Headers → Text → EndpointProbeConfig
config_of e headers url = record {
  monitor_id = e.id;
  url = url;
  method = e.method;
  headers = headers;
  body = none;
  expected_status = e.expected_status;
  assertions = e.assertions;
  timeout_ms = e.timeout_ms;
  follow_redirects = e.follow_redirects;
  max_redirects = e.max_redirects;
}

module _ (cipher : GcmCipher) (key : Bytes) where
  -- The loop over the merged rows; `none` where a row does not decrypt.
  unfoldable pub sent_headers : List Header → Headers → Option Headers
  sent_headers [] headers = some headers
  sent_headers (h ∷ rows) headers = do
    value ← sent_value cipher key h
    sent_headers rows (put h.name value headers)

  module _ (urls : UrlParser) (origin : Url → Text) (db : Snapshot) where
    abbrev pub at_url : EndpointRow → Headers → Option Text → Loaded
    at_url e headers none = bad_url
    at_url e headers (some url) = loaded (config_of e headers url)

    abbrev pub with_headers : EndpointRow → ServiceRow → Option Headers → Loaded
    with_headers e s none = bad_header
    with_headers e s (some headers) = at_url e headers (effective_url urls origin s.base_url e.path)

    module _ (timeout_ms : Option ℕ) (clock : ℕ → ℕ) where
      -- The statement timeout set before the n-th read, where there is a deadline.
      abbrev pub bound_for : Option ℕ → ℕ → List ℕ
      bound_for none n = []
      bound_for (some ms) n = max 1 ((clock 0 + ms) - clock (suc n)) ∷ []

      abbrev pub bound : ℕ → List ℕ
      bound n = bound_for timeout_ms n

      abbrev pub with_service : EndpointRow → Option ServiceRow → Loaded × List ℕ
      with_service e none = (monitor_not_found, bound 0 ++ bound 1)
      with_service e (some s) = (
        with_headers e s (
            sent_headers (merge_header_rows (db.service_headers s.id) (db.endpoint_headers e.id))
              []),
        ((bound 0 ++ bound 1) ++ bound 2) ++ bound 3,
      )

      abbrev pub with_endpoint : Option EndpointRow → Loaded × List ℕ
      with_endpoint none = (monitor_not_found, bound 0)
      with_endpoint (some e) = with_service e (db.service e.service_id)

      unfoldable pub load : Text → Loaded × List ℕ
      unfolding effective_url sent_headers
      load endpoint_id = with_endpoint (db.endpoint endpoint_id)
