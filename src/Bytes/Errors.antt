-- ===== src/Bytes/Errors.antt =====
-- `enum Error` (error.h): `ok` is XT_OK beside what the call returns through its pointers.
use xbox360_tls.Base.{◌≡◌, ◌⊎◌, inl, inr, refl, Bool, true, false}

pub data Error : Type 0 where
  invalid_argument buffer_too_small bad_record bad_handshake unsupported : Error
  crypto verify io closed : Error

pub data Result {ℓ} (Value : Type ℓ) : Type ℓ where
  ok : Value → Result Value
  err : Error → Result Value

-- What a call returned, split in the two outcomes.
pub Result-cases {ℓ} :
    {Value : Type ℓ} (r : Result Value)
    → ((value : Value) × (r ≡ ok value)) ⊎ ((code : Error) × (r ≡ err code))
Result-cases (err code) = inr (code, refl)
Result-cases (ok value) = inl (value, refl)

-- `if (test) return code;`
abbrev pub fail_if : Bool → Error → Result (Unit {0})
fail_if false code = ok tt
fail_if true code = err code

-- `e = call; if (e != XT_OK) return e;`
infixl 5 ◌>>=◌
abbrev pub ◌>>=◌ {ℓ κ} :
    {Value : Type ℓ} {Next : Type κ} → Result Value → (Value → Result Next) → Result Next
err code >>= next = err code
ok value >>= next = next value

infixl 5 ◌>>◌
abbrev pub ◌>>◌ {κ} : {Next : Type κ} → Result (Unit {0}) → Result Next → Result Next
call >> rest = call >>= λ done. rest

-- A sequence that succeeded did so in both of its calls.
pub >>=-eq-ok {ℓ κ} :
    {Value : Type ℓ} {Next : Type κ} (call : Result Value) (next : Value → Result Next)
    {last : Next}
    → (call >>= next) ≡ ok last
    → (value : Value) × (call ≡ ok value) × (next value ≡ ok last)
>>=-eq-ok (err code) next h = cc
>>=-eq-ok (ok value) next h = (value, refl, h)
