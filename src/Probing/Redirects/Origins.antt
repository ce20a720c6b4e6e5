-- ===== src/Probing/Redirects/Origins.antt =====
-- Two URLs of one origin share scheme, host and effective port.
use probeboard_api.Common.{
  ℕ, ◌≡◌, refl, ◌≢◌, ◌↔◌, inl, inr, true, [], ◌∷◌, ◌++◌, arith, if◌then◌else◌, Bool-cases, Text,
  text_eq, text_eq_iff,
}
use probeboard_api.Web.{Url, https}
use probeboard_api.Probing.Redirects.{default_port, origin_of, same_origin}

abbrev pub Lacks : ℕ → Text → Type 0
Lacks c [] = Unit
Lacks c (d ∷ s) = (d ≢ c) × Lacks c s

Lacks-middle : (c : ℕ) (s t : Text) → ¬ Lacks c (s ++ c ∷ t)
Lacks-middle c [] t (p, h) = p refl
Lacks-middle c (d ∷ s) t (p, h) = Lacks-middle c s t h

-- The first separator of two equal texts stands at one place.
split_first :
    (c : ℕ) (s t p q : Text) → Lacks c s → Lacks c t → s ++ c ∷ p ≡ t ++ c ∷ q → (s ≡ t) × (p ≡ q)
split_first c [] [] p q h k e = (refl, ground arith)
split_first c [] (d ∷ t) p q h (k, _) e = absurd (k (ground arith))
split_first c (d ∷ s) [] p q (h, _) k e = absurd (h (ground arith))
split_first c (d ∷ s) (b ∷ t) p q (_, h) (_, k) e = ground (arith, split_first c s t p q h k)

-- So does the last one.
split_last :
    (c : ℕ) (s t p q : Text) → Lacks c p → Lacks c q → s ++ c ∷ p ≡ t ++ c ∷ q → (s ≡ t) × (p ≡ q)
split_last c [] [] p q h k e = (refl, ground arith)
split_last c [] (d ∷ t) p q h k e =
    let same : p ≡ t ++ c ∷ q = ground arith in absurd (Lacks-middle c t q (rw same at h))
split_last c (d ∷ s) [] p q h k e =
    let same : s ++ c ∷ p ≡ q = ground arith in absurd (Lacks-middle c s p (rw (← same) at k))
split_last c (d ∷ s) (b ∷ t) p q h k e = ground (arith, split_last c s t p q h k)

abbrev pub effective_port : Url → Text
effective_port url = if text_eq url.port [] then default_port url else url.port

-- What the parser guarantees of the parts: no slash in a scheme, no colon in a port.
pub record IsPlain (url : Url) : Type 0 where
  pub scheme : Lacks b'/' url.protocol
  pub port : Lacks b':' url.port

effective_port-Lacks : (url : Url) → IsPlain url → Lacks b':' (effective_port url)
effective_port-Lacks url h = elim (Bool-cases (text_eq url.port [])) [
  | inr given ↦ rw given h.port
  | inl default ↦ rw default (elim (Bool-cases (text_eq url.protocol https)) [
    | inl secure ↦ unfold default_port in rw secure (omega arith)
    | inr plain ↦ unfold default_port in rw plain (omega arith)
  ])
]

-- Two URLs have one origin exactly when scheme, host name and effective port agree.
pub same_origin_iff :
    (a b : Url)
    → IsPlain a
    → IsPlain b
    → (same_origin a b ≡ true) ↔ (
        (a.protocol ≡ b.protocol)
        × (a.hostname ≡ b.hostname)
        × (effective_port a ≡ effective_port b))
unfolding same_origin origin_of
same_origin_iff a b h k = (
  λ e.
      let same = (text_eq_iff _ _).0 e in
      let (schemes, rest) = split_first b'/' a.protocol b.protocol _ _ h.scheme k.scheme same in
      let hosts : a.hostname ++ b':' ∷ effective_port a ≡ b.hostname ++ b':' ∷ effective_port b =
        ground arith in
      let (names, ports) =
        split_last b':' a.hostname b.hostname _ _ (effective_port-Lacks a h)
          (effective_port-Lacks b k) hosts in
      (schemes, names, ports),
  λ (schemes, names, ports).
      (text_eq_iff (origin_of a) (origin_of b)).1 (cc (schemes, names, ports)),
)
