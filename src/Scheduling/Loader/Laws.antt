-- ===== src/Scheduling/Loader/Laws.antt =====
-- What a load gives, and how long its statements may take.
use probeboard_api.Common.{
  ℕ, suc, ◌⊎◌, ◌+◌, ◌-◌, ◌≤◌, max, ◌≡◌, refl, sym, ap, ◌∙◌, inl, inr, not, Option, none, some, List,
  [], ◌∷◌, arith, if◌then◌else◌, Bool-cases, All, leb, Text, text_eq, text_eq_iff,
}
use mathlib.Core.Path.{subst}
use probeboard_api.Web.{Url, UrlParser}
use probeboard_api.Probing.BodyCap.{Bytes}
use probeboard_api.Probing.Redirects.{Headers}
use probeboard_api.Probing.Probe.{EndpointProbeConfig}
use probeboard_api.Headers.Cipher.{GcmCipher}
use probeboard_api.Headers.Rows.{Header, merge_header_rows, ◌>>=◌}
use probeboard_api.Headers.Rows.Merge.{merge_header_rows_rules}
use probeboard_api.Scheduling.Loader.{
  EndpointRow, ServiceRow, Snapshot, Loaded, loaded, config_of, effective_url, sent_headers, at_url,
  with_headers, with_service, with_endpoint, load,
}
use probeboard_api.Scheduling.Loader.Sent.{IsSent, bind-some, sent_headers-IsSent}

module _ (cipher : GcmCipher) (key : Bytes) (urls : UrlParser) (origin : Url → Text)
    (db : Snapshot) where
  -- A configuration is of an endpoint and its service as the snapshot has them: its URL has the
  -- service's origin, and under the name of each merged header stands what is sent of it.
  abbrev pub IsOf : Text → EndpointProbeConfig → Type 0
  IsOf id config =
      (e : EndpointRow) × (s : ServiceRow) × (joined : Url) × (db.endpoint id ≡ some e)
      × (db.service e.service_id ≡ some s)
      × (origin joined ≡ s.base_url)
      × (config.url ≡ urls.to_string joined)
      × (config.timeout_ms ≡ e.timeout_ms)
      × All (IsSent cipher key config.headers)
          (merge_header_rows (db.service_headers s.id) (db.endpoint_headers e.id))

  effective_url-origin :
      (base path url : Text)
      → effective_url urls origin base path ≡ some url
      → (joined : Url) × (origin joined ≡ base) × (url ≡ urls.to_string joined)
  unfolding effective_url
  effective_url-origin base path url e = go (urls.parse base) e
    where
      kept :
          (u : Url)
          → (if not (text_eq (origin u) base) then none else some (urls.to_string u)) ≡ some url
          → (joined : Url) × (origin joined ≡ base) × (url ≡ urls.to_string joined)
      kept u k = elim (Bool-cases (text_eq (origin u) base)) [
        | inl same ↦ (u, (text_eq_iff (origin u) base).0 same, ground (arith, k, same))
        | inr other ↦ let clash : none ≡ some url = sym (rw other refl) ∙ k in ground (arith, clash)
      ]

      go :
          (b : Option Url)
          → (b >>= λ base'. urls.join path base' >>= λ u.
              if not (text_eq (origin u) base) then none else some (urls.to_string u))
            ≡ some url
          → (joined : Url) × (origin joined ≡ base) × (url ≡ urls.to_string joined)
      go none k = cc
      go (some b) k =
          let (u, p, q) =
            bind-some cipher key (urls.join path b)
              (λ u. if not (text_eq (origin u) base) then none else some (urls.to_string u)) url
              k in
          kept u q

  module _ (ms : ℕ) (clock : ℕ → ℕ) where
    -- The timeouts of the statements from the n-th on: each is a millisecond, the least there is, or
    -- ends by the deadline when counted from the reading before its statement.
    abbrev pub AreInTime : ℕ → List ℕ → Type 0
    AreInTime n [] = Unit
    AreInTime n (t ∷ ts) =
        (1 ≤ t) × ((t ≡ 1) ⊎ (clock (suc n) + t ≤ clock 0 + ms)) × AreInTime (suc n) ts

    at_least : (n : ℕ) → 1 ≤ max 1 ((clock 0 + ms) - clock (suc n))
    at_least n = omega arith

    in_time :
        (n : ℕ)
        → (max 1 ((clock 0 + ms) - clock (suc n)) ≡ 1)
          ⊎ (clock (suc n) + max 1 ((clock 0 + ms) - clock (suc n)) ≤ clock 0 + ms)
    in_time n = elim (Bool-cases (leb (clock 0 + ms) (clock (suc n)))) [
      | inl late ↦ inl (ground (arith, late))
      | inr early ↦ inr (ground (arith, early))
    ]

    at_url-IsOf :
        (id : Text) (e : EndpointRow) (s : ServiceRow) (headers : Headers)
        (config : EndpointProbeConfig)
        → db.endpoint id ≡ some e
        → db.service e.service_id ≡ some s
        → sent_headers cipher key
            (merge_header_rows (db.service_headers s.id) (db.endpoint_headers e.id))
            []
          ≡ some headers
        → (o : Option Text) → effective_url urls origin s.base_url e.path ≡ o
        → at_url cipher key urls origin db e headers o ≡ loaded config
        → IsOf id config
    at_url-IsOf id e s headers config p q sent none u l = ground (arith, l)
    at_url-IsOf id e s headers config p q sent (some url) u l =
        let (joined, same, is) = effective_url-origin s.base_url e.path url u in
        let merged : List Header =
          merge_header_rows (db.service_headers s.id) (db.endpoint_headers e.id) in
        let distinct =
          (merge_header_rows_rules (db.service_headers s.id) (db.endpoint_headers e.id)).0 in
        let all_sent = sent_headers-IsSent cipher key merged [] headers distinct refl sent in
        let made : IsOf id (config_of e headers url) =
          (e, s, joined, p, q, same, is, refl, all_sent) in
        subst (IsOf id) (inj (config_of e headers url) config l) made
      where
        inj : (a b : EndpointProbeConfig) → loaded a ≡ loaded b → a ≡ b
        inj a b k = ground (arith, k)

    with_headers-IsOf :
        (id : Text) (e : EndpointRow) (s : ServiceRow) (config : EndpointProbeConfig)
        → db.endpoint id ≡ some e
        → db.service e.service_id ≡ some s
        → (o : Option Headers)
        → sent_headers cipher key
            (merge_header_rows (db.service_headers s.id) (db.endpoint_headers e.id))
            []
          ≡ o
        → with_headers cipher key urls origin db e s o ≡ loaded config
        → IsOf id config
    with_headers-IsOf id e s config p q none sent l = ground (arith, l)
    with_headers-IsOf id e s config p q (some headers) sent l =
        at_url-IsOf id e s headers config p q sent (effective_url urls origin s.base_url e.path)
          refl l

    with_service-IsOf :
        (id : Text) (e : EndpointRow) (config : EndpointProbeConfig)
        → db.endpoint id ≡ some e
        → (o : Option ServiceRow) → db.service e.service_id ≡ o
        → ((with_service cipher key urls origin db (some ms) clock e o).0 ≡ loaded config
            → IsOf id config)
          × AreInTime 0 (with_service cipher key urls origin db (some ms) clock e o).1
    with_service-IsOf id e config p none q =
        (λ l. ground (arith, l), (at_least 0, in_time 0, (at_least 1, in_time 1, tt)))
    with_service-IsOf id e config p (some s) q = (
      λ l.
          with_headers-IsOf id e s config p q
            (sent_headers cipher key
              (merge_header_rows (db.service_headers s.id) (db.endpoint_headers e.id)) [])
            refl l,
      (
        at_least 0,
        in_time 0,
        (at_least 1, in_time 1, (at_least 2, in_time 2, (at_least 3, in_time 3, tt))),
      ),
    )

    with_endpoint-IsOf :
        (id : Text) (config : EndpointProbeConfig) (o : Option EndpointRow)
        → db.endpoint id ≡ o
        → ((with_endpoint cipher key urls origin db (some ms) clock o).0 ≡ loaded config
            → IsOf id config)
          × AreInTime 0 (with_endpoint cipher key urls origin db (some ms) clock o).1
    with_endpoint-IsOf id config none p = (λ l. ground (arith, l), (at_least 0, in_time 0, tt))
    with_endpoint-IsOf id config (some e) p =
        with_service-IsOf id e config p (db.service e.service_id) refl

    -- What a load gives to probe is of the endpoint and its service in the one snapshot: the URL has
    -- the service's origin, and each merged header is sent with its value, decrypted if it is
    -- secret, but for one named `__proto__`, which is not sent. Each statement
    -- has a timeout of a millisecond at least, which ends by the deadline, counted from the clock's
    -- reading before the statement, or is that least millisecond.
    pub load_rules :
        (id : Text) (config : EndpointProbeConfig) (bounds : List ℕ)
        → load cipher key urls origin db (some ms) clock id ≡ (loaded config, bounds)
        → IsOf id config × AreInTime 0 bounds
    unfolding load
    load_rules id config bounds l =
        let (is, bounded) = with_endpoint-IsOf id config (db.endpoint id) refl in
        (
          is (ap (λ (r : Loaded × List ℕ). r.0) l),
          subst (AreInTime 0) (ap (λ (r : Loaded × List ℕ). r.1) l) bounded,
        )
