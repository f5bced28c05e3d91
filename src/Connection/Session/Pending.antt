-- ===== src/Connection/Session/Pending.antt =====
-- What `recv` keeps of a record that it had no room for, as a queue of bytes.
use xbox360_tls.Base.{
  ℕ, zero, suc, ◌+◌, ◌-◌, ◌≤◌, ◌<◌, ◌≡◌, refl, sym, ap, ◌∙◌, Bool-cases, inl, inr, false, [], ◌∷◌,
  ◌++◌, length, take, drop, ltb, ◌==◌, ==_iff, if◌then◌else◌, length-take, length-drop,
  length-append, drop-drop, drop-take, drop_all, take_all, append-nil, ltb→lt, ltb→le, take-append,
  take-append-drop, some, arith,
}
use xbox360_tls.Bytes.{Bytes, slice, ok}
use xbox360_tls.Record.{content_application_data}
use xbox360_tls.Connection.{TlsClient, World, Host}
use xbox360_tls.Connection.Session.{take_pending, keep_pending, recv_pending, less_of, recv_content}

-- The bytes that wait.
abbrev pub waiting : TlsClient → Bytes
waiting c = slice c.pending_app c.pending_app_offset c.pending_app_length

-- The bytes that wait lie inside the buffer.
abbrev pub PendingFits : TlsClient → Type 0
PendingFits c = c.pending_app_offset + c.pending_app_length ≤ length c.pending_app

take-take_le : (k n : ℕ) (xs : Bytes) → k ≤ n → take k xs ≡ take k (take n xs)
take-take_le zero n xs h = refl
take-take_le (suc k) zero xs h = absurd (omega arith)
take-take_le (suc k) (suc n) [] h = refl
take-take_le (suc k) (suc n) (x ∷ xs) h = ap (λ z. x ∷ z) (take-take_le k n xs (omega arith))

take-less_of : (n room : ℕ) (xs : Bytes) → take (less_of n room) xs ≡ take room (take n xs)
take-less_of n room xs = elim (Bool-cases (ltb room n)) [
  | inl e ↦ rw e (take-take_le room n xs (omega (arith, ltb→lt room n e)))
  | inr e ↦
      rw e (sym (take_all room (take n xs) (omega (arith, length-take n xs, ltb→le room n e))))
]

pending_place :
    (buffer : Bytes) (off n room : ℕ)
    → off + n ≤ length buffer
    → let left = n - less_of n room in
      let place = if left == 0 then 0 else off + less_of n room in
      (slice buffer place left ≡ drop room (slice buffer off n)) × (place + left ≤ length buffer)
pending_place buffer off n room fits = elim (Bool-cases (ltb room n)) [
  | inl e ↦
      let short : (n - room == 0) ≡ false = ground (arith, ltb→lt room n e) in
      rw (e, short)
        (
          ap (take (n - room)) (sym (drop-drop off room (off + room) buffer refl))
              ∙ sym (drop-take room n (drop off buffer)),
          omega (arith, fits, ltb→lt room n e),
        )
  | inr e ↦
      let none_left : n - n ≡ 0 = omega arith in
      rw (e, none_left)
        (
          sym (
              drop_all room (take n (drop off buffer))
                (omega (arith, length-take n (drop off buffer), ltb→le room n e))),
          omega arith,
        )
]

-- `recv` hands out the first of the waiting bytes, as many as there is room for, and the others
-- wait on, still inside the buffer.
pub recv_pending-waiting :
    {S : Type 0} (room : ℕ) (w : World S)
    → PendingFits w.client
    → ((recv_pending room w).1 ≡ ok (take room (waiting w.client)))
      × (waiting (recv_pending room w).0.client ≡ drop room (waiting w.client))
      × PendingFits (recv_pending room w).0.client
unfolding recv_pending take_pending
recv_pending-waiting room w fits =
    let c = w.client in
    let (rest, inside) =
      pending_place c.pending_app c.pending_app_offset c.pending_app_length room fits in
    (
      ap ok (take-less_of c.pending_app_length room (drop c.pending_app_offset c.pending_app)),
      rest,
      inside,
    )

kept :
    (rest : Bytes) (c : TlsClient)
    → 0 < length rest
    → length rest ≤ length c.pending_app
    → (waiting (keep_pending rest c) ≡ rest) × PendingFits (keep_pending rest c)
unfolding keep_pending
kept rest c some_left fits =
    let some_bytes : (length rest == 0) ≡ false = ground (arith, some_left) in
    let none_before : 0 + length rest ≡ length rest = omega arith in
    let inside : length rest ≤ length (rest ++ drop (length rest) c.pending_app) =
      omega (arith, length-append rest (drop (length rest) c.pending_app)) in
    rw (some_bytes, none_before)
      (take-append (length rest) rest (drop (length rest) c.pending_app) refl, inside)

-- Of a record of application data, `recv` hands out the first bytes, as many as there is room for.
-- If the others fit in the buffer, they wait, so that no byte is lost or given twice.
pub recv_content-waiting :
    {S : Type 0} (host : Host S) (room : ℕ) (plain : Bytes) (w : World S)
    → waiting w.client ≡ []
    → PendingFits w.client
    → length plain - room ≤ length w.client.pending_app
    → let (w', r) = recv_content host room content_application_data plain w in
      (r ≡ ok (some (take room plain)))
      × (take room plain ++ waiting w'.client ≡ plain)
      × PendingFits w'.client
unfolding recv_content keep_pending
recv_content-waiting host room plain w empty inside fits =
    let (whole, within) = placed in (refl, whole, within)
  where
    placed :
        (take room plain ++ waiting (keep_pending (drop room plain) w.client) ≡ plain)
        × PendingFits (keep_pending (drop room plain) w.client)
    placed = elim (Bool-cases (length (drop room plain) == 0)) [
      | inl none_left ↦
          let all_taken : length plain ≤ room =
            omega (arith, length-drop room plain, (==_iff _ _).0 none_left) in
          rw none_left (
            ap (λ z. take room plain ++ z) empty
                ∙ append-nil (take room plain)
                ∙ take_all room plain all_taken,
            inside,
          )
      | inr some_left ↦
          let (all, within) =
            kept (drop room plain) w.client (ground (arith, some_left))
              (omega (arith, fits, length-drop room plain)) in
          (ap (λ z. take room plain ++ z) all ∙ take-append-drop room plain, within)
    ]
