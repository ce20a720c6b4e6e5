-- ===== src/Probing/Redirects.antt =====
-- worker/probing/utils/redirect-rules.ts: what the next hop of a redirect sends.
-- A `Record<string, string>` of headers is the list of its entries.
pub mod Laws
pub mod Origins
mod Tests
use probeboard_api.Common.{
  ℕ, zero, suc, min, max, refl, sym, ap, inl, inr, Bool, true, false, not, ◌&&◌, ◌||◌,
  and-eq-true_iff, Option, none, some, List, [], ◌∷◌, ◌++◌, map, append_assoc, append-nil, arith,
  ltb, leb, ◌==◌, if◌then◌else◌, ltb→lt, lt→ltb, leb→le, ==_iff, tests, Bool-cases, Option-cases,
  length, get_elem?, get_or, take, replicate, length-append, length-take, all, any, find, All,
  All-append, Text, codes, text_eq, text_eq_iff, starts_with, includes, has, lower_unit, upper_unit,
  to_lower_case, to_upper_case,
}
use probeboard_api.Web.{Url, https}

abbrev pub Headers : Type 0
Headers = List (Text × Text)

abbrev pub followed_statuses : List ℕ
followed_statuses = 301 ∷ 302 ∷ 303 ∷ 307 ∷ 308 ∷ []

abbrev pub is_followed_redirect : ℕ → Bool
is_followed_redirect status = any (λ s. s == status) followed_statuses

abbrev pub body_headers : List Text
body_headers =
    codes "content-encoding"
    ∷ codes "content-language"
    ∷ codes "content-location"
    ∷ codes "content-type"
    ∷ []

abbrev pub get : Text
get = codes "GET"

abbrev pub head : Text
head = codes "HEAD"

abbrev pub post : Text
post = codes "POST"

unfoldable pub method_for_redirect : ℕ → Text → Text
method_for_redirect status method =
    let current = to_upper_case method in
    if status == 303
    then if text_eq current get || text_eq current head then current else get
    else if ((status == 301) || (status == 302)) && text_eq current post
    then get
    else current

unfoldable pub default_port : Url → Text
default_port url = if text_eq url.protocol https then codes "443" else codes "80"

unfoldable pub origin_of : Url → Text
unfolding default_port
origin_of url =
    url.protocol
    ++ (codes "//"
        ++ (url.hostname
            ++ (codes ":" ++ (if text_eq url.port [] then default_port url else url.port))))

unfoldable pub same_origin : Url → Url → Bool
same_origin a b = text_eq (origin_of a) (origin_of b)

pub record HopHeaderInput : Type 0 where
  pub headers : Headers
  pub target : Url
  pub origin : Url
  pub already_dropped : Bool
  pub rewritten_to_get : Bool

pub record HopHeaders : Type 0 where
  pub headers : Headers
  pub dropped : Bool

unfoldable pub is_body_header : Text → Bool
is_body_header name = has body_headers (to_lower_case name)

-- The entries that describe no body.
unfoldable pub without_body_headers : Headers → Headers
without_body_headers [] = []
without_body_headers ((name, value) ∷ rest) =
    if is_body_header name
    then without_body_headers rest
    else (name, value) ∷ without_body_headers rest

unfoldable pub headers_for_hop : HopHeaderInput → HopHeaders
headers_for_hop input =
    if input.already_dropped || not (same_origin input.target input.origin)
    then record { headers = []; dropped = true }
    else if not input.rewritten_to_get
    then record { headers = input.headers; dropped = false }
    else record { headers = without_body_headers input.headers; dropped = false }
