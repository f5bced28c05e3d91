-- ===== src/Connection/Action.antt =====
-- The calls of a client, which leave it and its stream in another state, and return a result.
use xbox360_tls.Base.{ℕ, Bool}
use xbox360_tls.Bytes.{Bytes, Error, Result, ok, err}
use xbox360_tls.Bytes.Errors
use xbox360_tls.Connection.{World, TlsClient, Host}

abbrev pub Action : Type 0 → Type 0 → Type 0
Action S A = World S → World S × Result A

-- What follows a call: its state goes on, and an error is returned at once.
abbrev pub continue : {S A B : Type 0} → World S × Result A → (A → Action S B) → World S × Result B
continue (w, ok value) next = next value w
continue (w, err code) next = (w, err code)

infixl 5 ◌>>=◌
abbrev pub ◌>>=◌ : {S A B : Type 0} → Action S A → (A → Action S B) → Action S B
(call >>= next) w = continue (call w) next

infixl 5 ◌>>◌
abbrev pub ◌>>◌ : {S B : Type 0} → Action S (Unit {0}) → Action S B → Action S B
call >> next = call >>= (λ done. next)

-- A computation that reads and changes nothing.
abbrev pub lift : {S A : Type 0} → Result A → Action S A
lift r w = (w, r)

-- `if (test) return code;`
abbrev pub fail_if : {S : Type 0} → Bool → Error → Action S (Unit {0})
fail_if test code = lift (Errors.fail_if test code)

-- `*this`
abbrev pub this : {S : Type 0} → Action S TlsClient
this w = (w, ok w.client)

abbrev pub change : {S : Type 0} → (TlsClient → TlsClient) → Action S (Unit {0})
change f w = (record w { client = f w.client }, ok _)

-- The calls of the stream.
abbrev pub recv_some : {S : Type 0} → Host S → ℕ → Action S Bytes
recv_some host capacity w =
    let (s, r) = host.stream.recv_some w.stream capacity in (record w { stream = s }, r)

abbrev pub send_all : {S : Type 0} → Host S → Bytes → Action S (Unit {0})
send_all host bytes w =
    let (s, r) = host.stream.send_all w.stream bytes in (record w { stream = s }, r)
