-- ===== src/Bytes/Outcome.antt =====
-- What holds of the value of a call, if it returns one.
use xbox360_tls.Base.{Bool, true, false, if◌then◌else◌, ◌≡◌, refl, subst}
use xbox360_tls.Bytes.Errors.{Error, Result, ok, err, ◌>>=◌, ◌>>◌, fail_if}

unfoldable pub Holds {ℓ κ} : {Value : Type ℓ} → (Value → Type κ) → Result Value → Type κ
Holds P (ok value) = P value
Holds P (err code) = Unit

pub any_value {ℓ} : {Value : Type ℓ} (call : Result Value) → Holds (λ value. Unit {0}) call
unfolding Holds
any_value (ok value) = tt
any_value (err code) = tt

-- A sequence has what its second call has behind a value of the first one.
pub then_Holds {ℓ κ μ ν} :
    {Value : Type ℓ} {Next : Type κ} (P : Value → Type μ) (Q : Next → Type ν) (call : Result Value)
    (next : Value → Result Next)
    → Holds P call
    → ((value : Value) → P value → Holds Q (next value))
    → Holds Q (call >>= next)
unfolding Holds
then_Holds P Q (ok value) next h k = k value h
then_Holds P Q (err code) next h k = tt

-- The same where nothing is known of the first value.
pub next_Holds {ℓ κ ν} :
    {Value : Type ℓ} {Next : Type κ} (Q : Next → Type ν) (call : Result Value)
    (next : Value → Result Next)
    → ((value : Value) → Holds Q (next value))
    → Holds Q (call >>= next)
unfolding Holds
next_Holds Q (ok value) next k = k value
next_Holds Q (err code) next k = tt

-- Behind a guard, its test is false.
pub guard_Holds {κ ν} :
    {Next : Type κ} (Q : Next → Type ν) (test : Bool) (code : Error) (rest : Result Next)
    → ((test ≡ false) → Holds Q rest)
    → Holds Q (fail_if test code >> rest)
unfolding Holds
guard_Holds Q false code rest k = k refl
guard_Holds Q true code rest k = tt

pub if_Holds {κ ν} :
    {Next : Type κ} (Q : Next → Type ν) (test : Bool) (then_call else_call : Result Next)
    → ((test ≡ true) → Holds Q then_call)
    → ((test ≡ false) → Holds Q else_call)
    → Holds Q (if test then then_call else else_call)
if_Holds Q true a b k l = k refl
if_Holds Q false a b k l = l refl

pub return_Holds {ℓ κ} :
    {Value : Type ℓ} (P : Value → Type κ) (value : Value) → P value → Holds P (ok value)
unfolding Holds
return_Holds P value h = h

pub value_Holds {ℓ κ} :
    {Value : Type ℓ} (P : Value → Type κ) (value : Value) → Holds P (ok value) → P value
unfolding Holds
value_Holds P value h = h

-- What holds of the value is so of the value that is returned.
pub Holds_ok {ℓ κ} :
    {Value : Type ℓ} (P : Value → Type κ) (call : Result Value) {value : Value}
    → Holds P call
    → call ≡ ok value
    → P value
Holds_ok P call {value} h e = value_Holds P value (subst (Holds P) e h)

pub fail_Holds {ℓ κ} : {Value : Type ℓ} (P : Value → Type κ) (code : Error) → Holds P (err code)
unfolding Holds
fail_Holds P code = tt

pub Holds-map {ℓ κ μ} :
    {Value : Type ℓ} (P : Value → Type κ) (Q : Value → Type μ) (call : Result Value)
    → Holds P call
    → ((value : Value) → P value → Q value)
    → Holds Q call
unfolding Holds
Holds-map P Q (ok value) h k = k value h
Holds-map P Q (err code) h k = tt
