-- ===== src/Connection/Session/Life.antt =====
-- The life of a connection that stands: the calls that a program makes on it, in any order.
use xbox360_tls.Base.{
  ℕ, zero, suc, ◌≡◌, refl, ap, subst, ◌⊎◌, inl, inr, Bool, true, false, Bool-cases, not, ◌&&◌, ◌==◌,
  if◌then◌else◌, Option, some, none,
}
use xbox360_tls.Bytes.{
  Bytes, ByteSpan, MutableByteSpan, size, closed, invalid_argument, Result, ok, err,
}
use xbox360_tls.Connection.{client_connected, TlsClient, Host, World, wipe_secrets}
use xbox360_tls.Connection.After.{After}
use xbox360_tls.Connection.Records.{is_connected}
use xbox360_tls.Connection.Session.Kept.{IsIn}
use xbox360_tls.Connection.Session.Failure.{
  IsWiped, IsOver, Settled, connected, key_update-Settled, send-Settled, recv_round-Settled,
}
use xbox360_tls.Connection.Session.{
  key_update, send, recv, recv_rounds, recv_round, after_round, recv_pending, take_pending, less_of,
  reset_client, close_client, is_handshaking, is_closed,
}

-- A client that is connected, or one whose secrets are wiped.
abbrev pub IsSafe : TlsClient → Type 0
IsSafe c = (c.state ≡ client_connected) ⊎ ((is_connected c.state ≡ false) × IsWiped c)

over-IsSafe : (c : TlsClient) → IsOver c → IsSafe c
unfolding is_connected
over-IsSafe c (inl failed, wiped) = inr (ap is_connected failed, wiped)
over-IsSafe c (inr shut, wiped) = inr (ap is_connected shut, wiped)

Settled-IsSafe : {S A : Type 0} (r : World S × Result A) → Settled r → IsSafe (r.0).client
unfolding After
Settled-IsSafe (w, ok value) h = inl h
Settled-IsSafe (w, err code) h = over-IsSafe w.client h

key_update-IsSafe :
    {S : Type 0} (host : Host S) (request_peer_update : Bool) (w : World S)
    → IsSafe w.client
    → IsSafe (key_update host request_peer_update w).0.client
unfolding key_update
key_update-IsSafe host b w (inl h) =
    Settled-IsSafe (key_update host b w) (key_update-Settled host b w h)
key_update-IsSafe host b w (inr (off, wiped)) = rw off (inr (off, wiped))

send-IsSafe :
    {S : Type 0} (host : Host S) (bytes : ByteSpan) (w : World S)
    → IsSafe w.client
    → IsSafe (send host bytes w).0.client
unfolding send
send-IsSafe host bytes w (inr (off, wiped)) = rw off (inr (off, wiped))
send-IsSafe host bytes w (inl h) = elim (Bool-cases (not (size bytes == 0) && bytes.is_null)) [
  | inr good ↦ Settled-IsSafe (send host bytes w) (send-Settled host bytes w h good)
  | inl bad ↦ rw (connected w h, bad) (inl h)
]

-- What a bounded run has returned, if it has returned.
unfoldable Returned : {A : Type 0} → (A → Type 0) → Option A → Type 0
Returned P none = Unit
Returned P (some r) = P r

Returned-if :
    {A : Type 0} (P : A → Type 0) (test : Bool) (a b : Option A)
    → Returned P a
    → Returned P b
    → Returned P (if test then a else b)
Returned-if P true a b h k = h
Returned-if P false a b h k = k

Returned-some : {A : Type 0} (P : A → Type 0) (r : A) → P r → Returned P (some r)
unfolding Returned
Returned-some P r h = h

returned : {A : Type 0} (P : A → Type 0) (o : Option A) (r : A) → Returned P o → o ≡ some r → P r
unfolding Returned
returned P o r h e = subst (Returned P) e h

abbrev SafeEnd : {S A : Type 0} → World S × Result A → Type 0
SafeEnd r = IsSafe (r.0).client

after_round_safe :
    {S : Type 0} (q : World S × Result (Option Bytes))
    (next : World S → Option (World S × Result Bytes))
    → Settled q
    → ((w : World S) → IsIn client_connected w → Returned (λ r. SafeEnd r) (next w))
    → Returned (λ r. SafeEnd r) (after_round q next)
unfolding After Returned
after_round_safe (w, ok (some bytes)) next h k = inl h
after_round_safe (w, ok none) next h k = k w h
after_round_safe (w, err code) next h k = over-IsSafe w.client h

rounds_safe :
    {S : Type 0} (host : Host S) (n room : ℕ) (w : World S)
    → IsIn client_connected w
    → Returned (λ r. SafeEnd r) (recv_rounds host n room w)
unfolding recv_rounds Returned
rounds_safe host zero room w h = tt
rounds_safe host (suc n) room w h =
    after_round_safe (recv_round host room w) (λ w'. recv_rounds host n room w')
      (recv_round-Settled host room w h) (λ w' h'. rounds_safe host n room w' h')

take_pending-IsSafe : (n : ℕ) (c : TlsClient) → IsSafe c → IsSafe (take_pending n c)
unfolding take_pending wipe_secrets
take_pending-IsSafe n c (inl h) = inl h
take_pending-IsSafe n c (inr (off, wiped)) = inr (off, wiped)

recv-IsSafe :
    {S : Type 0} (host : Host S) (n : ℕ) (out : MutableByteSpan) (w : World S)
    (r : World S × Result Bytes)
    → recv host n out w ≡ some r
    → IsSafe w.client
    → IsSafe (r.0).client
unfolding recv recv_pending
recv-IsSafe {S = S} host n out w r e h = returned P (recv host n out w) r (safe h) e
  where
    P : World S × Result Bytes → Type 0
    P r = SafeEnd r

    safe : IsSafe w.client → Returned P (recv host n out w)
    safe (inl on) =
        Returned-if P (out.is_null && not (out.capacity == 0)) _ _
          (Returned-some P (w, err invalid_argument) h)
          (Returned-if P (not (is_connected w.client.state)) _ _ (Returned-some P (w, err closed) h)
            (Returned-if P (not (w.client.pending_app_length == 0)) _ _
              (Returned-some P _
                (take_pending-IsSafe (less_of w.client.pending_app_length out.capacity) w.client h))
              (rounds_safe host n out.capacity w on)))
    safe (inr (off, wiped)) =
        Returned-if P (out.is_null && not (out.capacity == 0)) _ _
          (Returned-some P (w, err invalid_argument) h)
          (rw off (Returned-some P (w, err closed) (inr (off, wiped))))

close_client-IsSafe :
    {S : Type 0} (host : Host S) (w : World S)
    → IsSafe w.client
    → IsSafe (close_client host w).0.client
unfolding close_client wipe_secrets is_connected
close_client-IsSafe host w h = elim (Bool-cases (is_closed w.client.state)) [
  | inl e ↦ rw e h
  | inr e ↦ elim (Bool-cases (is_connected w.client.state)) [
    | inl f ↦ rw (e, f) (inr (refl, (refl, refl, refl, refl, refl, refl, refl)))
    | inr f ↦ rw (e, f) (inr (refl, (refl, refl, refl, refl, refl, refl, refl)))
  ]
]

reset_client-IsSafe :
    {S : Type 0} (host : Host S) (w : World S)
    → IsSafe w.client
    → IsSafe (reset_client host w).0.client
unfolding reset_client wipe_secrets is_connected
reset_client-IsSafe host w h = elim (Bool-cases (is_handshaking w.client.state)) [
  | inl e ↦ rw e h
  | inr e ↦ rw e (inr (refl, (refl, refl, refl, refl, refl, refl, refl)))
]

-- A call that a program makes on a client.
pub data Call {S : Type 0} (host : Host S) : World S → World S → Type 0 where
  updated :
      (request_peer_update : Bool) (w : World S)
      → Call host w (key_update host request_peer_update w).0
  sent : (bytes : ByteSpan) (w : World S) → Call host w (send host bytes w).0
  received :
      (n : ℕ) (out : MutableByteSpan) (w : World S) (r : World S × Result Bytes)
      → recv host n out w ≡ some r
      → Call host w r.0
  was_reset : (w : World S) → Call host w (reset_client host w).0
  was_closed : (w : World S) → Call host w (close_client host w).0

pub data Calls {S : Type 0} (host : Host S) : World S → World S → Type 0 where
  no_call : (w : World S) → Calls host w w
  then_call : (u v w : World S) → Calls host u v → Call host v w → Calls host u w

call-IsSafe :
    {S : Type 0} (host : Host S) (v w : World S) → Call host v w → IsSafe v.client → IsSafe w.client
call-IsSafe host _ _ (updated b v) h = key_update-IsSafe host b v h
call-IsSafe host _ _ (sent bytes v) h = send-IsSafe host bytes v h
call-IsSafe host _ _ (received n out v r e) h = recv-IsSafe host n out v r e h
call-IsSafe host _ _ (was_reset v) h = reset_client-IsSafe host v h
call-IsSafe host _ _ (was_closed v) h = close_client-IsSafe host v h

-- Whatever calls of key_update, send, recv, reset and close are made on a client that is connected
-- or wiped, in any order, it is connected or its secrets are wiped.
pub Calls-IsSafe :
    {S : Type 0} (host : Host S) (v w : World S)
    → Calls host v w
    → IsSafe v.client
    → IsSafe w.client
Calls-IsSafe host _ _ (no_call v) h = h
Calls-IsSafe host _ _ (then_call u v w calls call) h =
    call-IsSafe host v w call (Calls-IsSafe host u v calls h)
