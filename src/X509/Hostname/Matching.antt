-- ===== src/X509/Hostname/Matching.antt =====
-- When a name of a certificate names a host.
use xbox360_tls.Base.{
  ℕ, suc, ◌<◌, ◌≡◌, refl, sym, ap, ap₂, ◌∙◌, ◌⊎◌, inl, inr, [], ◌∷◌, ◌++◌, map, length,
  length-append, drop, true, false, Bool-cases, ◌&&◌, ◌==◌, ==_iff, Option, some, none, arith,
}
use xbox360_tls.Bytes.{Bytes, span, at}
use xbox360_tls.X509.Hostname.{ascii_lower, same_lower, first_dot, wildcard_equal, dns_equal}

-- The letters of a name as small ones.
abbrev pub lower : Bytes → Bytes
lower = map ascii_lower

abbrev pub HasNoDot : Bytes → Type 0
HasNoDot [] = Unit
HasNoDot (c ∷ cs) = (c == 0x2e ≡ false) × HasNoDot cs

-- A name is the host's but for the case of its letters, or `*.` and what follows the first label of
-- the host, which is not empty.
pub data Names : Bytes → Bytes → Type 0 where
  exact : (pat host : Bytes) → lower pat ≡ lower host → Names pat host
  wildcard :
      (pat label rest : Bytes)
      → HasNoDot label
      → 0 < length label
      → 0 < length pat
      → lower pat ≡ lower rest
      → Names (0x2a ∷ 0x2e ∷ pat) (label ++ (0x2e ∷ rest))

same_lower_sound : (a b : Bytes) → length a ≡ length b → same_lower a b ≡ true → lower a ≡ lower b
unfolding same_lower
same_lower_sound [] [] l h = refl
same_lower_sound [] (y ∷ b) l h = absurd (omega arith)
same_lower_sound (x ∷ a) [] l h = absurd (omega arith)
same_lower_sound (x ∷ a) (y ∷ b) l h =
    let first : ascii_lower x == ascii_lower y ≡ true = ground (arith, h) in
    ap₂ (λ c cs. c ∷ cs) ((==_iff _ _).0 first)
      (same_lower_sound a b (omega (arith, l)) (ground (arith, h)))

same_lower_complete :
    (a b : Bytes) → lower a ≡ lower b → (length a ≡ length b) × (same_lower a b ≡ true)
unfolding same_lower
same_lower_complete [] [] h = (refl, refl)
same_lower_complete [] (y ∷ b) h = absurd (omega (arith, ap length h))
same_lower_complete (x ∷ a) [] h = absurd (omega (arith, ap length h))
same_lower_complete (x ∷ a) (y ∷ b) h =
    let first : ascii_lower x ≡ ascii_lower y = ap (λ z. at z 0) h in
    let (l, r) = same_lower_complete a b (ap (drop 1) h) in (ap suc l, rw (first, r) (ground arith))

-- The host is split at its first dot.
first_dot_sound :
    (host : Bytes) {dot : Bytes}
    → first_dot host ≡ some dot
    → (label : Bytes) × (rest : Bytes) × HasNoDot label
      × (dot ≡ 0x2e ∷ rest)
      × (host ≡ label ++ (0x2e ∷ rest))
unfolding first_dot
first_dot_sound [] h = cc
first_dot_sound (c ∷ host) {dot} h = elim (Bool-cases (c == 0x2e)) [
  | inl e ↦
      let here : c ∷ host ≡ dot = ground (arith, h, e) in
      let point : c ≡ 0x2e = (==_iff _ _).0 e in
      ([], host, tt, sym here ∙ ap (λ z. z ∷ host) point, ap (λ z. z ∷ host) point)
  | inr e ↦
      let (label, rest, clear, whole, split) = first_dot_sound host (ground (arith, h, e)) in
      (c ∷ label, rest, (e, clear), whole, ap (λ z. c ∷ z) split)
]

first_dot-append :
    (label rest : Bytes) → HasNoDot label → first_dot (label ++ (0x2e ∷ rest)) ≡ some (0x2e ∷ rest)
unfolding first_dot
first_dot-append [] rest h = refl
first_dot-append (c ∷ label) rest h = rw (h.0) (first_dot-append label rest h.1)

==_false : (a b : ℕ) → a == b ≡ false → ¬ (a ≡ b)
==_false a b h e = ground (arith, h, e)

Option-cases : (o : Option Bytes) → ((v : Bytes) × (o ≡ some v)) ⊎ (o ≡ none)
Option-cases none = inr refl
Option-cases (some v) = inl (v, refl)

wildcard_sound : (pat host : Bytes) → wildcard_equal pat host ≡ true → Names pat host
unfolding wildcard_equal
wildcard_sound [] host h = cc
wildcard_sound (x ∷ []) host h = cc
wildcard_sound (x ∷ y ∷ []) host h = cc
wildcard_sound (x ∷ y ∷ z ∷ s) host h = elim (Option-cases (first_dot host)) [
  | inr e ↦ absurd (ground (arith, h, e))
  | inl (dot, e) ↦
      let (label, rest, clear, whole, split) = first_dot_sound host e in
      let star : x ≡ 0x2a = ground (arith, h, e) in
      let point : y ≡ 0x2e = ground (arith, h, e) in
      let apart : (length dot == length host) ≡ false = ground (arith, h, e) in
      let width : (length (drop 1 dot) == suc (length s)) ≡ true = ground (arith, h, e) in
      let same : same_lower (z ∷ s) (drop 1 dot) ≡ true = ground (arith, h, e) in
      let room : 0 < length label = omega (
        arith,
        ==_false (length dot) (length host) apart,
        ap length whole,
        ap length split,
        length-append label (0x2e ∷ rest),
      ) in
      let suffix : drop 1 dot ≡ rest = ap (drop 1) whole in
      let equal : lower (z ∷ s) ≡ lower rest =
        same_lower_sound (z ∷ s) (drop 1 dot) (sym ((==_iff _ _).0 width)) same ∙ ap lower suffix in
      rw (star, point, split) (wildcard (z ∷ s) label rest clear room (omega arith) equal)
]

-- `dns_equal` accepts a name for a host exactly where it names the host, the first dot of the host
-- being the one that the pattern's rest is compared behind.
pub dns_equal_sound : (pat host : Bytes) → dns_equal (span pat) (span host) ≡ true → Names pat host
unfolding dns_equal
dns_equal_sound pat host h = elim (Bool-cases (length pat == length host && same_lower pat host)) [
  | inl e ↦
      exact pat host
        (same_lower_sound pat host ((==_iff _ _).0 (ground (arith, e))) (ground (arith, e)))
  | inr e ↦ wildcard_sound pat host (ground (arith, h, e))
]

pub dns_equal_complete :
    (pat host : Bytes) → Names pat host → dns_equal (span pat) (span host) ≡ true
unfolding dns_equal
dns_equal_complete _ _ (exact pat host e) =
    let (l, r) = same_lower_complete pat host e in rw (r) (ground (arith, l))
dns_equal_complete _ _ (wildcard s label rest nodot some_label some_pat e) =
    let (l, r) = same_lower_complete s rest e in
    let behind : wildcard_equal (0x2a ∷ 0x2e ∷ s) (label ++ (0x2e ∷ rest)) ≡ true =
      unfold wildcard_equal in
      rw (first_dot-append label rest nodot, r)
        (ground (arith, l, length-append label (0x2e ∷ rest))) in
    rw behind (ground arith)
