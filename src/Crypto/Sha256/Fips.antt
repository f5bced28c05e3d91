-- ===== src/Crypto/Sha256/Fips.antt =====
-- SHA-256 as FIPS 180-4 defines it, over 32-bit words and messages of whole bytes.
use xbox360_tls.Base.{
  ℕ, zero, suc, ◌+◌, ◌-◌, ◌*◌, ◌/◌, ◌%◌, ◌^◌, bit_and, bit_or, bit_xor, List, [], ◌∷◌, ◌++◌, length,
  get_or, drop, replicate,
}
use xbox360_tls.Bytes.{Bytes, at, slice}
use xbox360_tls.Crypto.Sha256.{Working}

-- Rotation to the right, and the functions of sections 3.2 and 4.1.2.
abbrev pub rotate : ℕ → ℕ → ℕ
rotate n x = bit_or (x / 2 ^ n) (x * 2 ^ (32 - n) % 2 ^ 32)

abbrev pub big_sigma : ℕ → ℕ → ℕ → ℕ → ℕ
big_sigma i j k x = bit_xor (bit_xor (rotate i x) (rotate j x)) (rotate k x)

abbrev pub small_sigma : ℕ → ℕ → ℕ → ℕ → ℕ
small_sigma i j k x = bit_xor (bit_xor (rotate i x) (rotate j x)) (x / 2 ^ k)

abbrev pub choose : ℕ → ℕ → ℕ → ℕ
choose x y z = bit_xor (bit_and x y) (bit_and (2 ^ 32 - 1 - x) z)

abbrev pub majority : ℕ → ℕ → ℕ → ℕ
majority x y z = bit_xor (bit_xor (bit_and x y) (bit_and x z)) (bit_and y z)

-- The constants of sections 4.2.2 and 5.3.3.
abbrev pub constants : List ℕ
constants =
    0x428a2f98 ∷ 0x71374491 ∷ 0xb5c0fbcf ∷ 0xe9b5dba5 ∷ 0x3956c25b ∷ 0x59f111f1 ∷ 0x923f82a4
    ∷ 0xab1c5ed5 ∷ 0xd807aa98 ∷ 0x12835b01 ∷ 0x243185be ∷ 0x550c7dc3 ∷ 0x72be5d74 ∷ 0x80deb1fe
    ∷ 0x9bdc06a7 ∷ 0xc19bf174 ∷ 0xe49b69c1 ∷ 0xefbe4786 ∷ 0x0fc19dc6 ∷ 0x240ca1cc ∷ 0x2de92c6f
    ∷ 0x4a7484aa ∷ 0x5cb0a9dc ∷ 0x76f988da ∷ 0x983e5152 ∷ 0xa831c66d ∷ 0xb00327c8 ∷ 0xbf597fc7
    ∷ 0xc6e00bf3 ∷ 0xd5a79147 ∷ 0x06ca6351 ∷ 0x14292967 ∷ 0x27b70a85 ∷ 0x2e1b2138 ∷ 0x4d2c6dfc
    ∷ 0x53380d13 ∷ 0x650a7354 ∷ 0x766a0abb ∷ 0x81c2c92e ∷ 0x92722c85 ∷ 0xa2bfe8a1 ∷ 0xa81a664b
    ∷ 0xc24b8b70 ∷ 0xc76c51a3 ∷ 0xd192e819 ∷ 0xd6990624 ∷ 0xf40e3585 ∷ 0x106aa070 ∷ 0x19a4c116
    ∷ 0x1e376c08 ∷ 0x2748774c ∷ 0x34b0bcb5 ∷ 0x391c0cb3 ∷ 0x4ed8aa4a ∷ 0x5b9cca4f ∷ 0x682e6ff3
    ∷ 0x748f82ee ∷ 0x78a5636f ∷ 0x84c87814 ∷ 0x8cc70208 ∷ 0x90befffa ∷ 0xa4506ceb ∷ 0xbef9a3f7
    ∷ 0xc67178f2 ∷ []

abbrev pub initial : List ℕ
initial =
    0x6a09e667 ∷ 0xbb67ae85 ∷ 0x3c6ef372 ∷ 0xa54ff53a ∷ 0x510e527f ∷ 0x9b05688c ∷ 0x1f83d9ab
    ∷ 0x5be0cd19 ∷ []

-- `n` bytes of a number, the most significant first.
abbrev pub be_bytes : ℕ → ℕ → Bytes
be_bytes zero v = []
be_bytes (suc n) v = be_bytes n (v / 256) ++ (v % 256 ∷ [])

-- The first `n` words of a block, of four bytes each.
abbrev pub words : ℕ → Bytes → List ℕ
words zero b = []
words (suc n) b = (((at b 0 * 256 + at b 1) * 256 + at b 2) * 256 + at b 3) ∷ words n (drop 4 b)

-- `n` more words of the message schedule (section 6.2.2, step 1).
abbrev pub schedule : ℕ → List ℕ → List ℕ
schedule zero w = w
schedule (suc n) w =
    let t = length w in
    schedule n (
      w
      ++ ((small_sigma 17 19 10 (get_or w (t - 2) 0)
              + get_or w (t - 7) 0
              + small_sigma 7 18 3 (get_or w (t - 15) 0)
              + get_or w (t - 16) 0)
            % 2 ^ 32
          ∷ []))

-- A round (step 3).
abbrev pub step : ℕ → ℕ → Working → Working
step k w s =
    let t₁ = (s.h + big_sigma 6 11 25 s.e + choose s.e s.f s.g + k + w) % 2 ^ 32 in
    let t₂ = (big_sigma 2 13 22 s.a + majority s.a s.b s.c) % 2 ^ 32 in
    record {
      a = (t₁ + t₂) % 2 ^ 32;
      b = s.a;
      c = s.b;
      d = s.c;
      e = (s.d + t₁) % 2 ^ 32;
      f = s.e;
      g = s.f;
      h = s.g;
    }

abbrev pub steps : List ℕ → List ℕ → Working → Working
steps [] ws s = s
steps (k ∷ ks) [] s = s
steps (k ∷ ks) (w ∷ ws) s = steps ks ws (step k w s)

-- The hash value after a block (steps 2 and 4).
abbrev pub working : List ℕ → Working
working st = record {
  a = get_or st 0 0;
  b = get_or st 1 0;
  c = get_or st 2 0;
  d = get_or st 3 0;
  e = get_or st 4 0;
  f = get_or st 5 0;
  g = get_or st 6 0;
  h = get_or st 7 0;
}

abbrev pub sum : Working → Working → List ℕ
sum x y =
    (x.a + y.a) % 2 ^ 32
    ∷ (x.b + y.b) % 2 ^ 32
    ∷ (x.c + y.c) % 2 ^ 32
    ∷ (x.d + y.d) % 2 ^ 32
    ∷ (x.e + y.e) % 2 ^ 32
    ∷ (x.f + y.f) % 2 ^ 32
    ∷ (x.g + y.g) % 2 ^ 32
    ∷ (x.h + y.h) % 2 ^ 32
    ∷ []

abbrev pub compress : List ℕ → Bytes → List ℕ
compress st block = sum (working st) (steps constants (schedule 48 (words 16 block)) (working st))

-- The blocks of a message in turn, and the bytes of the words.
abbrev pub chain : ℕ → List ℕ → Bytes → List ℕ
chain zero st m = st
chain (suc n) st m = compress (chain n st m) (slice m (64 * n) 64)

abbrev pub output : List ℕ → Bytes
output [] = []
output (w ∷ ws) = be_bytes 4 w ++ output ws

-- A one bit, zeros up to 8 bytes before the end of a block, and the count of bits, which
-- FIPS 180-4 has below 2^64.
abbrev pub pad : Bytes → Bytes
pad m =
    m ++ (0x80 ∷ (replicate ((119 - length m % 64) % 64) 0 ++ be_bytes 8 (length m * 8 % 2 ^ 64)))

abbrev pub digest : Bytes → Bytes
digest m = output (chain (length (pad m) / 64) initial (pad m))
