-- ===== src/Crypto/Sha256/Stream.antt =====
-- The hash object after any calls of `update` is determined by all the bytes given to it, however
-- they were cut.
use native.Mathlib.Nat.{le_refl}
use xbox360_tls.Base.{
  ℕ, zero, suc, ◌+◌, ◌-◌, ◌*◌, ◌%◌, ◌^◌, ◌≤◌, ◌<◌, ◌≡◌, refl, sym, ap, ap₂, ◌∙◌, subst, inl, inr,
  Bool-cases, min, List, [], ◌∷◌, ◌++◌, ◌==◌, ==_iff, length, take, drop, length-append,
  length-take, length-drop, take-append-drop, take-append_le, drop-append_le, drop_all, take_all,
  append_assoc, append-nil, arith,
}
use xbox360_tls.Bytes.{Bytes, slice}
use xbox360_tls.Crypto.Sha256.{
  Sha256, initial_state, fresh, transform, flush, update_loop, update, final, sha256,
}

-- The chaining value after `n` blocks of `m`.
unfoldable pub hash_blocks : ℕ → List ℕ → Bytes → List ℕ
hash_blocks zero st m = st
hash_blocks (suc n) st m = transform (hash_blocks n st m) (slice m (64 * n) 64)

pub slice-append :
    (m q : Bytes) (off n : ℕ) → off + n ≤ length m → slice (m ++ q) off n ≡ slice m off n
slice-append m q off n h =
    ap (take n) (drop-append_le off m q (omega arith))
    ∙ take-append_le n (drop off m) q (omega (arith, length-drop off m))

pub hash_blocks-append :
    (n : ℕ) (st : List ℕ) (m q : Bytes)
    → 64 * n ≤ length m
    → hash_blocks n st (m ++ q) ≡ hash_blocks n st m
unfolding hash_blocks
hash_blocks-append zero st m q h = refl
hash_blocks-append (suc n) st m q h =
    ap₂ transform (hash_blocks-append n st m q (omega arith))
      (slice-append m q (64 * n) 64 (omega arith))

-- `s` has hashed the whole blocks of `m` and keeps the bytes behind them.
pub record Absorbed (s : Sha256) (m : Bytes) : Type 0 where
  pub blocks : ℕ
  pub sized : length m ≡ 64 * blocks + length s.buffer
  pub short : length s.buffer < 64
  pub states : s.state ≡ hash_blocks blocks initial_state m
  pub waits : s.buffer ≡ drop (64 * blocks) m

pub Absorbed-fresh : Absorbed fresh []
unfolding hash_blocks
Absorbed-fresh = record {
  blocks = 0;
  sized = omega arith;
  short = omega arith;
  states = refl;
  waits = refl;
}

-- One round of `update`: bytes that fit the buffer.
Absorbed-flush :
    {s : Sha256} {m : Bytes} (q : Bytes)
    → Absorbed s m
    → length s.buffer + length q ≤ 64
    → Absorbed (flush (record s { buffer = s.buffer ++ q })) (m ++ q)
unfolding flush hash_blocks
Absorbed-flush {s} {m} q r h = elim (Bool-cases (length (s.buffer ++ q) == 64)) [
  | inl full ↦ rw full (record {
    blocks = suc r.blocks;
    sized =
        omega (arith, r.sized, length-append m q, length-append s.buffer q, (==_iff _ 64).0 full);
    short = omega arith;
    states = ap₂ transform (r.states ∙ sym kept) (
        sym (take_all 64 (s.buffer ++ q) (omega (arith, (==_iff _ 64).0 full)))
        ∙ ap (take 64) (sym joined));
    waits = sym (
        drop_all (64 * suc r.blocks) (m ++ q) (
          omega
            (arith, r.sized, length-append m q, length-append s.buffer q, (==_iff _ 64).0 full)));
  })
  | inr part ↦ rw part (record {
    blocks = r.blocks;
    sized = omega (arith, r.sized, length-append m q, length-append s.buffer q);
    short = ground (arith, part, length-append s.buffer q);
    states = r.states ∙ sym kept;
    waits = sym joined;
  })
]
  where
    kept : hash_blocks r.blocks initial_state (m ++ q) ≡ hash_blocks r.blocks initial_state m
    kept = hash_blocks-append r.blocks initial_state m q (omega (arith, r.sized))

    joined : drop (64 * r.blocks) (m ++ q) ≡ s.buffer ++ q
    joined =
        drop-append_le (64 * r.blocks) m q (omega (arith, r.sized)) ∙ ap (λ t. t ++ q) (sym r.waits)

Absorbed-update_loop :
    (n : ℕ) (p : Bytes) {s : Sha256} {m : Bytes}
    → Absorbed s m
    → length p ≤ n
    → Absorbed (update_loop n s p) (m ++ p)
unfolding update_loop
Absorbed-update_loop zero [] {m = m} r h = rw append-nil r
Absorbed-update_loop (suc n) [] {m = m} r h = rw append-nil r
Absorbed-update_loop zero (x ∷ p) r h = absurd (omega arith)
Absorbed-update_loop (suc n) (x ∷ p) {s} {m} r h =
    subst (Absorbed (update_loop n (flush (record s { buffer = s.buffer ++ piece })) left)) whole (
      Absorbed-update_loop n left
        (Absorbed-flush piece r (omega (arith, length-take k (x ∷ p), r.short)))
        (omega (arith, length-drop k (x ∷ p), r.short)))
  where
    k : ℕ
    k = min (64 - length s.buffer) (length (x ∷ p))

    piece : Bytes
    piece = take k (x ∷ p)

    left : Bytes
    left = drop k (x ∷ p)

    whole : m ++ piece ++ left ≡ m ++ (x ∷ p)
    whole = append_assoc m piece left ∙ ap (λ t. m ++ t) (take-append-drop k (x ∷ p))

total-flush : (s : Sha256) → (flush s).total_bytes ≡ s.total_bytes
unfolding flush
total-flush s = ground arith

total-update_loop :
    (n : ℕ) (s : Sha256) (p : Bytes) → (update_loop n s p).total_bytes ≡ s.total_bytes
unfolding update_loop
total-update_loop zero s p = refl
total-update_loop (suc n) s [] = refl
total-update_loop (suc n) s (x ∷ p) = total-update_loop n _ _ ∙ total-flush _

-- The state of the object after the bytes `m`.
pub record Hashed (s : Sha256) (m : Bytes) : Type 0 where
  pub absorbed : Absorbed s m
  pub counted : s.total_bytes ≡ length m % 2 ^ 64

pub Hashed-fresh : Hashed fresh []
Hashed-fresh = record { absorbed = Absorbed-fresh; counted = refl }

pub Hashed-update : {s : Sha256} {m : Bytes} (p : Bytes) → Hashed s m → Hashed (update s p) (m ++ p)
unfolding update
Hashed-update {s} {m} p r = record {
  absorbed =
      Absorbed-update_loop (length p) p
        (record {
          blocks = r.absorbed.blocks;
          sized = r.absorbed.sized;
          short = r.absorbed.short;
          states = r.absorbed.states;
          waits = r.absorbed.waits;
        })
        (le_refl _);
  counted = total-update_loop (length p) _ p ∙ omega (arith, r.counted, length-append m p);
}

-- The bytes determine the object.
Hashed-unique : {s t : Sha256} (m : Bytes) → Hashed s m → Hashed t m → s ≡ t
Hashed-unique {s} {t} m p q =
    ground (arith, ap (λ k. hash_blocks k initial_state m) same, ap (λ k. drop (64 * k) m) same)
  where
    same : p.absorbed.blocks ≡ q.absorbed.blocks
    same = omega arith

-- The object after several calls of `update`.
abbrev pub update_all : Sha256 → List Bytes → Sha256
update_all s [] = s
update_all s (p ∷ ps) = update_all (update s p) ps

abbrev pub concat : List Bytes → Bytes
concat [] = []
concat (p ∷ ps) = p ++ concat ps

Hashed-update_all :
    (ps : List Bytes) {s : Sha256} {m : Bytes}
    → Hashed s m
    → Hashed (update_all s ps) (m ++ concat ps)
Hashed-update_all [] r = rw append-nil r
Hashed-update_all (p ∷ ps) {s} {m} r =
    subst (Hashed (update_all (update s p) ps)) (append_assoc m p (concat ps))
      (Hashed-update_all ps (Hashed-update p r))

-- Hashing a message in pieces gives the hash of the whole, wherever the pieces are cut.
pub final-update_all : (ps : List Bytes) → final (update_all fresh ps) ≡ sha256 (concat ps)
unfolding sha256
final-update_all ps = ap final (
    Hashed-unique (concat ps) (Hashed-update_all ps Hashed-fresh)
      (Hashed-update (concat ps) Hashed-fresh))
