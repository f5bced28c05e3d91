-- ===== src/Crypto/Sha256.antt =====
-- src/crypto/sha256.cpp. Words are numbers below 2 ^ 32. Of `buffer_` the model keeps the first
-- `buffered_` bytes: the code writes the others before it reads them.
pub mod Stream
pub mod Fips
pub mod Standard
pub mod Padding
mod Tests
use xbox360_tls.Base.{
  ℕ, zero, suc, ◌+◌, ◌-◌, ◌*◌, ◌/◌, ◌%◌, ◌^◌, min, bit_and, bit_or, bit_xor, List, [], ◌∷◌, ◌++◌,
  ltb, ◌==◌, if◌then◌else◌, length, get_or, take, drop, replicate,
}
use xbox360_tls.Bytes.{Bytes, at, u8, u32, u64}
use xbox360_tls.Record.{seq_bytes}

unfoldable pub rotr : ℕ → ℕ → ℕ
rotr x n = bit_or (x / 2 ^ n) (u32 (x * 2 ^ (32 - n)))

unfoldable pub ch : ℕ → ℕ → ℕ → ℕ
ch x y z = bit_xor (bit_and x y) (bit_and (2 ^ 32 - 1 - x) z)

unfoldable pub maj : ℕ → ℕ → ℕ → ℕ
maj x y z = bit_xor (bit_xor (bit_and x y) (bit_and x z)) (bit_and y z)

unfoldable pub bsig0 : ℕ → ℕ
bsig0 x = bit_xor (bit_xor (rotr x 2) (rotr x 13)) (rotr x 22)

unfoldable pub bsig1 : ℕ → ℕ
bsig1 x = bit_xor (bit_xor (rotr x 6) (rotr x 11)) (rotr x 25)

unfoldable pub ssig0 : ℕ → ℕ
ssig0 x = bit_xor (bit_xor (rotr x 7) (rotr x 18)) (x / 2 ^ 3)

unfoldable pub ssig1 : ℕ → ℕ
ssig1 x = bit_xor (bit_xor (rotr x 17) (rotr x 19)) (x / 2 ^ 10)

-- the constants `K`
abbrev pub round_constants : List ℕ
round_constants =
    0x428a2f98 ∷ 0x71374491 ∷ 0xb5c0fbcf ∷ 0xe9b5dba5 ∷ 0x3956c25b ∷ 0x59f111f1 ∷ 0x923f82a4
    ∷ 0xab1c5ed5 ∷ 0xd807aa98 ∷ 0x12835b01 ∷ 0x243185be ∷ 0x550c7dc3 ∷ 0x72be5d74 ∷ 0x80deb1fe
    ∷ 0x9bdc06a7 ∷ 0xc19bf174 ∷ 0xe49b69c1 ∷ 0xefbe4786 ∷ 0x0fc19dc6 ∷ 0x240ca1cc ∷ 0x2de92c6f
    ∷ 0x4a7484aa ∷ 0x5cb0a9dc ∷ 0x76f988da ∷ 0x983e5152 ∷ 0xa831c66d ∷ 0xb00327c8 ∷ 0xbf597fc7
    ∷ 0xc6e00bf3 ∷ 0xd5a79147 ∷ 0x06ca6351 ∷ 0x14292967 ∷ 0x27b70a85 ∷ 0x2e1b2138 ∷ 0x4d2c6dfc
    ∷ 0x53380d13 ∷ 0x650a7354 ∷ 0x766a0abb ∷ 0x81c2c92e ∷ 0x92722c85 ∷ 0xa2bfe8a1 ∷ 0xa81a664b
    ∷ 0xc24b8b70 ∷ 0xc76c51a3 ∷ 0xd192e819 ∷ 0xd6990624 ∷ 0xf40e3585 ∷ 0x106aa070 ∷ 0x19a4c116
    ∷ 0x1e376c08 ∷ 0x2748774c ∷ 0x34b0bcb5 ∷ 0x391c0cb3 ∷ 0x4ed8aa4a ∷ 0x5b9cca4f ∷ 0x682e6ff3
    ∷ 0x748f82ee ∷ 0x78a5636f ∷ 0x84c87814 ∷ 0x8cc70208 ∷ 0x90befffa ∷ 0xa4506ceb ∷ 0xbef9a3f7
    ∷ 0xc67178f2 ∷ []

pub record Sha256 : Type 0 where
  pub state : List ℕ
  pub total_bytes : ℕ
  pub buffer : Bytes

abbrev pub initial_state : List ℕ
initial_state =
    0x6a09e667 ∷ 0xbb67ae85 ∷ 0x3c6ef372 ∷ 0xa54ff53a ∷ 0x510e527f ∷ 0x9b05688c ∷ 0x1f83d9ab
    ∷ 0x5be0cd19 ∷ []

-- `reset`, also what the constructor leaves
abbrev pub fresh : Sha256
fresh = record { state = initial_state; total_bytes = 0; buffer = [] }

-- `w[i]` for `i < 16`: big-endian words of the block, `n` words left
unfoldable pub block_words : ℕ → Bytes → List ℕ
block_words zero b = []
block_words (suc n) b =
    bit_or (bit_or (bit_or (at b 0 * 2 ^ 24) (at b 1 * 2 ^ 16)) (at b 2 * 2 ^ 8)) (at b 3)
    ∷ block_words n (drop 4 b)

-- `w[i]` for `i` from 16: `w` is what is written so far, `n` words left
unfoldable pub extend_words : ℕ → List ℕ → List ℕ
extend_words zero w = w
extend_words (suc n) w =
    let i = length w in
    extend_words n (
      w
      ++ (u32 (
            ssig1 (get_or w (i - 2) 0)
            + get_or w (i - 7) 0
            + ssig0 (get_or w (i - 15) 0)
            + get_or w (i - 16) 0)
          ∷ []))

-- the working variables `a` ... `h`
pub record Working : Type 0 where
  pub a : ℕ
  pub b : ℕ
  pub c : ℕ
  pub d : ℕ
  pub e : ℕ
  pub f : ℕ
  pub g : ℕ
  pub h : ℕ

unfoldable pub round : ℕ → ℕ → Working → Working
round k w s =
    let t1 = u32 (s.h + bsig1 s.e + ch s.e s.f s.g + k + w) in
    let t2 = u32 (bsig0 s.a + maj s.a s.b s.c) in
    record {
      a = u32 (t1 + t2);
      b = s.a;
      c = s.b;
      d = s.c;
      e = u32 (s.d + t1);
      f = s.e;
      g = s.f;
      h = s.g;
    }

unfoldable pub rounds : List ℕ → List ℕ → Working → Working
rounds [] ws s = s
rounds (k ∷ ks) [] s = s
rounds (k ∷ ks) (w ∷ ws) s = rounds ks ws (round k w s)

unfoldable pub transform : List ℕ → Bytes → List ℕ
transform st block =
    let w = extend_words 48 (block_words 16 block) in
    let word = λ (i : ℕ). get_or st i 0 in
    let s = rounds round_constants w (record {
      a = word 0;
      b = word 1;
      c = word 2;
      d = word 3;
      e = word 4;
      f = word 5;
      g = word 6;
      h = word 7;
    }) in
    u32 (word 0 + s.a)
    ∷ u32 (word 1 + s.b)
    ∷ u32 (word 2 + s.c)
    ∷ u32 (word 3 + s.d)
    ∷ u32 (word 4 + s.e)
    ∷ u32 (word 5 + s.f)
    ∷ u32 (word 6 + s.g)
    ∷ u32 (word 7 + s.h)
    ∷ []

-- `if (buffered_ == 64) { transform(buffer_); buffered_ = 0; }`
unfoldable pub flush : Sha256 → Sha256
flush s =
    if length s.buffer == 64
    then record s { state = transform s.state s.buffer; buffer = [] }
    else s

-- `while (len)`: a round takes a byte at least, so the length of the data is fuel enough.
unfoldable pub update_loop : ℕ → Sha256 → Bytes → Sha256
update_loop zero s p = s
update_loop (suc n) s [] = s
update_loop (suc n) s (x ∷ p) =
    let k = min (64 - length s.buffer) (length (x ∷ p)) in
    update_loop n (flush (record s { buffer = s.buffer ++ take k (x ∷ p) })) (drop k (x ∷ p))

unfoldable pub update : Sha256 → Bytes → Sha256
update s p = update_loop (length p) (record s { total_bytes = u64 (s.total_bytes + length p) }) p

unfoldable pub word_bytes : List ℕ → Bytes
word_bytes [] = []
word_bytes (w ∷ ws) = u8 (w / 2 ^ 24) ∷ u8 (w / 2 ^ 16) ∷ u8 (w / 2 ^ 8) ∷ u8 w ∷ word_bytes ws

-- `while (buffered_ < n) buffer_[buffered_++] = 0;`
abbrev pub fill : ℕ → Bytes → Bytes
fill n b = b ++ replicate (n - length b) 0

unfoldable pub final : Sha256 → Bytes
final s =
    let bits = u64 (s.total_bytes * 8) in
    let marked = s.buffer ++ (0x80 ∷ []) in
    let long = ltb 56 (length marked) in
    let st = if long then transform s.state (fill 64 marked) else s.state in
    let rest = if long then [] else marked in
    word_bytes (transform st (fill 56 rest ++ seq_bytes 8 bits []))

unfoldable pub sha256 : Bytes → Bytes
sha256 input = final (update fresh input)
