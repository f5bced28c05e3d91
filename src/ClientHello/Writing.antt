-- ===== src/ClientHello/Writing.antt =====
-- `Writer`: what is written so far, within the capacity; a write that does not fit is left out
-- and marks the writer. `patch16` and `patch24` overwrite what is there.
use xbox360_tls.Base.{
  ℕ, ◌+◌, ◌≤◌, ◌≡◌, refl, sym, ap, ◌∙◌, Bool, Bool-cases, true, false, inl, inr, List, [], ◌∷◌,
  ◌++◌, ltb, ltb→le, if◌then◌else◌, length, length-append, take, drop, append-nil, append_assoc,
  arith,
}
use xbox360_tls.Bytes.{Bytes, buffer_too_small, Result, ok, err, store_be16, store_be24}

pub record Writer : Type 0 where
  pub written : Bytes
  pub capacity : ℕ
  pub fine : Bool

-- `put8`, `put16`, `put24` and `bytes`, for the bytes that they write
unfoldable pub put : Writer → Bytes → Writer
put w bs =
    if ltb w.capacity (length w.written + length bs)
    then record w { fine = false }
    else record w { written = w.written ++ bs }

-- One write after the other.
abbrev pub puts : Writer → List Bytes → Writer
puts w [] = w
puts w (bs ∷ rest) = puts (put w bs) rest

-- The writes of an extension, then `return w.ok();`, where the caller gives up on `false`
unfoldable pub write_all : Writer → List Bytes → Result Writer
write_all w fields = let w' = puts w fields in if w'.fine then ok w' else err buffer_too_small

abbrev overwrite : Bytes → ℕ → Bytes → Bytes
overwrite p i bs = take i p ++ (bs ++ drop (i + length bs) p)

unfoldable pub patch16 : Writer → ℕ → ℕ → Writer
patch16 w i v =
    if ltb (length w.written) (i + 2)
    then w
    else record w { written = overwrite w.written i (store_be16 v) }

unfoldable pub patch24 : Writer → ℕ → ℕ → Writer
patch24 w i v =
    if ltb (length w.written) (i + 3)
    then w
    else record w { written = overwrite w.written i (store_be24 v) }

-- What later writes leave of earlier ones.
pub record Grows (w w' : Writer) : Type 0 where
  pub more : Bytes
  pub grown : w'.written ≡ w.written ++ more
  pub same_room : w'.capacity ≡ w.capacity
  pub fits : length w.written ≤ w.capacity → length w'.written ≤ w'.capacity
  pub sticky : w'.fine ≡ true → w.fine ≡ true

pub Grows-refl : (w : Writer) → Grows w w
Grows-refl w = record {
  more = [];
  grown = sym (append-nil w.written);
  same_room = refl;
  fits = λ h. h;
  sticky = λ h. h;
}

pub Grows-trans : {w w' w'' : Writer} → Grows w w' → Grows w' w'' → Grows w w''
Grows-trans {w} {w'} {w''} g h = record {
  more = g.more ++ h.more;
  grown = h.grown ∙ ap (λ z. z ++ h.more) g.grown ∙ append_assoc w.written g.more h.more;
  same_room = h.same_room ∙ g.same_room;
  fits = λ l. h.fits (g.fits l);
  sticky = λ l. g.sticky (h.sticky l);
}

put-Grows : (w : Writer) (bs : Bytes) → Grows w (put w bs)
unfolding put
put-Grows w bs = elim (Bool-cases (ltb w.capacity (length w.written + length bs))) [
  | inl e ↦ rw e (record {
    more = [];
    grown = sym (append-nil w.written);
    same_room = refl;
    fits = λ h. h;
    sticky = λ h. cc;
  })
  | inr e ↦ rw e (record {
    more = bs;
    grown = refl;
    same_room = refl;
    fits = λ h. omega (arith, ltb→le _ _ e, length-append w.written bs);
    sticky = λ h. h;
  })
]

pub puts-Grows : (w : Writer) (fields : List Bytes) → Grows w (puts w fields)
puts-Grows w [] = Grows-refl w
puts-Grows w (bs ∷ rest) = Grows-trans (put-Grows w bs) (puts-Grows (put w bs) rest)

pub write_all-Grows :
    {w w' : Writer} (fields : List Bytes) → write_all w fields ≡ ok w' → Grows w w'
unfolding write_all
write_all-Grows {w} {w'} fields e =
    let same : w' ≡ puts w fields = ground (arith, e) in rw same (puts-Grows w fields)
