-- ===== src/Scheduling/Loader/Tests.antt =====
-- Tests and the witness of the loader.
use probeboard_api.Common.{
  ◌*◌, ◌≡◌, refl, true, none, some, [], ◌∷◌, if◌then◌else◌, replicate, Text, codes, text_eq,
}
use probeboard_api.Web.{Url, UrlParser}
use probeboard_api.Probing.Probe.{EndpointProbeConfig}
use probeboard_api.Probing.Probe.Sample.{site}
use probeboard_api.Headers.Cipher.{GcmCipher, decrypt_secret}
use probeboard_api.Headers.Rows.{
  plain_row, secret_row, merge_header_rows, map_set, set_headers, sent_value, decrypt_header_value,
}
use probeboard_api.Scheduling.Loader.{
  EndpointRow, Snapshot, loaded, monitor_not_found, config_of, effective_url, sent_headers, load,
}
use probeboard_api.Scheduling.Loader.Laws.{IsOf, AreInTime, load_rules}

abbrev open_cipher : GcmCipher
open_cipher = record {
  seal = λ key iv plaintext. (plaintext, replicate 16 0);
  unseal = λ key iv ciphertext tag. some ciphertext;
}

abbrev urls : UrlParser
urls = record {
  parse = λ t. some (site t);
  join = λ path base. some base;
  to_string = λ u. u.hostname;
}

abbrev origin : Url → Text
origin u = u.hostname

abbrev endpoint : EndpointRow
endpoint = record {
  id = codes "e";
  service_id = codes "s";
  path = codes "/";
  method = codes "GET";
  expected_status = [];
  assertions = [];
  timeout_ms = 100;
  follow_redirects = true;
  max_redirects = 3;
}

abbrev db : Snapshot
db = record {
  endpoint = λ id. if text_eq id (codes "e") then some endpoint else none;
  service = λ id. some (record { id = id; base_url = codes "https://a.io" });
  service_headers = λ id.
      plain_row (codes "X-Key") (some (codes "a"))
      ∷ plain_row (codes "__proto__") (some (codes "b"))
      ∷ [];
  endpoint_headers = λ id.
      secret_row (codes "x-key")
        (record { ciphertext = codes "c"; iv = []; auth_tag = replicate 16 0 })
      ∷ [];
}

-- The header of the endpoint overrides the service's, and the one named `__proto__` is lost.
abbrev config : EndpointProbeConfig
config = config_of endpoint ((codes "x-key", codes "c") ∷ []) (codes "https://a.io")

load_test :
    load open_cipher [] urls origin db (some 50) (λ n. 20 * n) (codes "e")
    ≡ (loaded config, 30 ∷ 10 ∷ 1 ∷ 1 ∷ [])
unfolding load effective_url sent_headers merge_header_rows map_set set_headers sent_value
    decrypt_header_value decrypt_secret
load_test = refl

absent_test :
    load open_cipher [] urls origin db (some 50) (λ n. 20 * n) (codes "f")
    ≡ (monitor_not_found, 30 ∷ [])
unfolding load
absent_test = refl

load_rules_example :
    IsOf open_cipher [] urls origin db (codes "e") config
    × AreInTime open_cipher [] urls origin db 50 (λ n. 20 * n) 0 (30 ∷ 10 ∷ 1 ∷ 1 ∷ [])
load_rules_example =
    load_rules open_cipher [] urls origin db 50 (λ n. 20 * n) (codes "e") config
      (30 ∷ 10 ∷ 1 ∷ 1 ∷ []) load_test
