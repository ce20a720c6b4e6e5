-- ===== src/Web.antt =====
-- What the program reads of a WHATWG `URL`, and the parser, which the platform supplies.
use probeboard_api.Common.{Option, Text, codes}

-- `protocol` ends in a colon, and `port` is empty where the scheme's default applies.
pub record Url : Type 0 where
  pub protocol : Text
  pub username : Text
  pub password : Text
  pub hostname : Text
  pub port : Text
  pub pathname : Text
  pub search : Text
  pub hash : Text

-- `parse t` is `new URL(t)`, `join t base` is `new URL(t, base)`, with `none` where it throws.
pub record UrlParser : Type 0 where
  pub parse : Text → Option Url
  pub join : Text → Url → Option Url
  pub to_string : Url → Text

abbrev pub http : Text
http = codes "http:"

abbrev pub https : Text
https = codes "https:"
