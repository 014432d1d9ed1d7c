-- ===== src/Tpp/Reassembly.antt =====
-- The receiving loop puts the lines of a PDU together again.
use upil.Common.{
  ℕ, zero, suc, ◌+◌, ◌-◌, ◌≤◌, ◌<◌, ◌≡◌, refl, ap, ◌∙◌, ◌⊎◌, inl, inr, Option, none, some, List,
  false, [], ◌∷◌, ◌++◌, append_assoc, append-nil, length, drop, length-append, arith,
}
use upil.Common.Memory.{Bytes}
use upil.Common.Buffers.{write_n-append, read_n-append, drop-append}
use upil.Tpp.Defs.{TppEvt, Verdict, partial, complete, Assembly, Receiver, zeros, tp_flag}
use upil.Tpp.Send.{hid_line}
use upil.Tpp.Framing.{Framed, done, line, length-hid_line}
use upil.Tpp.Receive.{
  check_tppdu, tppdu2event, hidpdu2event, judged, cleared, is_ack, settled, recv_frame, recv_loop,
}

pub length-zeros : (n : ℕ) → length (zeros n) ≡ n
unfolding zeros
length-zeros zero = refl
length-zeros (suc n) = ap suc (length-zeros n)

pub zeros-append : (m n : ℕ) → zeros m ++ zeros n ≡ zeros (m + n)
unfolding zeros
zeros-append zero n = ap zeros (omega arith)
zeros-append (suc m) n =
    ap (◌∷◌ 0) (zeros-append m n) ∙ ap zeros (let e : suc (m + n) ≡ suc m + n = omega arith in e)

pub drop-zeros : (k n : ℕ) → drop k (zeros n) ≡ zeros (n - k)
unfolding zeros
drop-zeros zero n = ap zeros (omega arith)
drop-zeros (suc k) zero = let e : 0 ≡ 0 - suc k = omega arith in ap zeros e
drop-zeros (suc k) (suc n) =
    let e : n - k ≡ suc n - suc k = omega arith in drop-zeros k n ∙ ap zeros e

-- The bytes `m` of a PDU, in a buffer that is zero behind them.
abbrev pub holding : Bytes → ℕ → Assembly
holding m z = record { buf = m ++ zeros z; offset = length m }

abbrev pub empty : ℕ → Assembly
empty n = holding [] n

pub cleared_lem : (m : Bytes) (z : ℕ) → cleared (holding m z) ≡ some (empty (length m + z))
unfolding cleared
cleared_lem m z = rw (
  write_n-append [] (m ++ zeros z) (zeros (length m))
      (omega (arith, length-zeros (length m), length-append m (zeros z))),
  length-zeros (length m),
  drop-append m (zeros z),
  zeros-append (length m) z,
)

-- `pdu` has the flag and the size that `check_tppdu` looks for.
pub record IsPdu (pdu : Bytes) : Type 0 where
  pub size : ℕ
  pub rest : Bytes
  pub shape : pdu ≡ tp_flag ∷ size ∷ rest
  pub sized : size ≡ length rest

pub check_tppdu_complete :
    (pdu zs : Bytes) → IsPdu pdu → check_tppdu (pdu ++ zs) (length pdu) ≡ complete
unfolding check_tppdu
check_tppdu_complete pdu zs i = rw i.shape (ground (arith, i.sized))

pub check_tppdu_partial :
    (p q zs : Bytes)
    → IsPdu (p ++ q)
    → 0 < length p
    → 0 < length q
    → check_tppdu (p ++ zs) (length p) ≡ partial
unfolding check_tppdu
check_tppdu_partial [] q zs i a b = absurd (omega arith)
check_tppdu_partial (x ∷ []) q zs i a b = ground (arith, i.shape)
check_tppdu_partial (x ∷ y ∷ p) q zs i a b =
    ground (arith, i.shape, i.sized, length-append p q, ap length i.shape)

-- A line that carries `c` moves it behind the bytes held.
pub hidpdu2event-line :
    (p c o : Bytes) (z : ℕ)
    → 0 < length c
    → length c ≤ z
    → hidpdu2event (hid_line c ++ o) (holding p z)
      ≡ (let a = holding (p ++ c) (z - length c) in judged (check_tppdu a.buf a.offset) a)
unfolding hidpdu2event hid_line
hidpdu2event-line p c o z pos room =
    rw
      (
        append_assoc c (drop (length c) (2 ∷ 3 ∷ 4 ∷ 5 ∷ 6 ∷ 7 ∷ [])) o,
        read_n-append (3 ∷ length c ∷ []) c (drop (length c) (2 ∷ 3 ∷ 4 ∷ 5 ∷ 6 ∷ 7 ∷ []) ++ o),
        write_n-append p (zeros z) c (omega (arith, length-zeros z)),
        drop-zeros (length c) z,
        ← append_assoc p c (zeros (z - length c)),
        ← length-append p c,
      )
      (ground arith)

pub is_ack-hid_line : (c o : Bytes) → length c ≤ 6 → is_ack (hid_line c ++ o) ≡ false
unfolding is_ack hid_line
is_ack-hid_line c o h = ground arith

-- One round of the loop on a line that is no confirmation.
pub recv_line :
    (pre c o : Bytes) (r : Receiver) (v : Verdict × Assembly × Option TppEvt) (r' : Receiver)
    → length c ≤ 6
    → hidpdu2event (hid_line c ++ o) r.assembly ≡ some v
    → settled v r ≡ some r'
    → recv_frame (pre ++ (hid_line c ++ o)) (length pre) r ≡ some (pre ++ (hid_line c ++ o), r')
unfolding recv_frame
recv_line pre c o r v r' h e s =
    rw (drop-append pre (hid_line c ++ o), is_ack-hid_line c o h, e) (rw s)

-- A receiver that holds `m` in a buffer of `length m + z` bytes.
abbrev pub taking : Bytes → ℕ → ℕ → List TppEvt → Receiver
taking m z acks sent = record { assembly = holding m z; acks = acks; sent = sent }

recv_partial :
    (pre p c q o : Bytes) (z acks : ℕ) (sent : List TppEvt)
    → IsPdu ((p ++ c) ++ q)
    → 0 < length c
    → length c ≤ 6
    → length c ≤ z
    → 0 < length q
    → recv_frame (pre ++ (hid_line c ++ o)) (length pre) (taking p z acks sent)
      ≡ some (pre ++ (hid_line c ++ o), taking (p ++ c) (z - length c) acks sent)
unfolding judged settled
recv_partial pre p c q o z acks sent i pos six room more =
    recv_line pre c o (taking p z acks sent) (partial, holding (p ++ c) (z - length c), none) _ six
      (hidpdu2event-line p c o z pos room
        ∙ rw (
            check_tppdu_partial (p ++ c) q (zeros (z - length c)) i
              (omega (arith, length-append p c)) more))
      refl

recv_complete :
    (pre p c o : Bytes) (z acks : ℕ) (sent : List TppEvt) (e : TppEvt)
    → IsPdu (p ++ c)
    → 0 < length c
    → length c ≤ 6
    → length c ≤ z
    → tppdu2event ((p ++ c) ++ zeros (z - length c)) ≡ some e
    → recv_frame (pre ++ (hid_line c ++ o)) (length pre) (taking p z acks sent)
      ≡ some (pre ++ (hid_line c ++ o), taking [] (length p + z) acks (sent ++ (e ∷ [])))
unfolding judged settled
recv_complete pre p c o z acks sent e i pos six room known =
    recv_line pre c o (taking p z acks sent) (complete, holding (p ++ c) (z - length c), some e) _
      six
      (hidpdu2event-line p c o z pos room
        ∙ rw (check_tppdu_complete (p ++ c) (zeros (z - length c)) i) (rw known))
      (rw (cleared_lem (p ++ c) (z - length c)) (
        ap (λ j. some (taking [] j acks (sent ++ (e ∷ []))))
          (let len : length (p ++ c) + (z - length c) ≡ length p + z =
              omega (arith, length-append p c) in
            len)))

Framed-cases : {q out : Bytes} {n : ℕ} → Framed q out n → ((q ≡ []) × (n ≡ 0)) ⊎ (0 < length q)
Framed-cases done = inl (refl, refl)
Framed-cases (line c q o eq eo pos six h) = inr (omega (arith, ap length eq, length-append c q))

-- Behind `pre` in the buffer stand the lines of `q`; with `p` already held, the loop over them
-- sends the event of the whole PDU `p ++ q`, and ends with nothing held.
pub recv_loop-Framed :
    {q out : Bytes} {n : ℕ} (h : Framed q out n) (pre p : Bytes) (z acks : ℕ) (sent : List TppEvt)
    (e : TppEvt)
    → IsPdu (p ++ q)
    → 0 < length q
    → length q ≤ z
    → tppdu2event ((p ++ q) ++ zeros (z - length q)) ≡ some e
    → recv_loop n (pre ++ out) (length pre) (taking p z acks sent)
      ≡ some (taking [] (length p + z) acks (sent ++ (e ∷ [])))
unfolding recv_loop
recv_loop-Framed done pre p z acks sent e i pos room known = absurd (omega arith)
recv_loop-Framed (line {n} c q o eq eo pos six h) pre p z acks sent e i _ room known =
    let i' : IsPdu ((p ++ c) ++ q) = rw (eq, ← append_assoc p c q) at i in
    let room' : length c + length q ≤ z = omega (arith, ap length eq, length-append c q) in
    let left : z - length (c ++ q) ≡ z - length c - length q = omega (arith, length-append c q) in
    let known' : tppdu2event (((p ++ c) ++ q) ++ zeros (z - length c - length q)) ≡ some e =
      rw (eq, ← append_assoc p c q, left) at known in
    rw eo (elim (Framed-cases h) [
      | inl (q_nil, n_zero) ↦
          let last : z - length c - length q ≡ z - length c = omega (arith, ap length q_nil) in
          rw (
            recv_complete pre p c o z acks sent e (rw (q_nil, append-nil (p ++ c)) at i') pos six
                (omega arith) (rw (last, q_nil, append-nil (p ++ c)) at known'),
            n_zero,
          )
      | inr more ↦
          rw
            (
              recv_partial pre p c q o z acks sent i' pos six (omega arith) more,
              ← append_assoc pre (hid_line c) o,
            )
            (ap
                (λ j.
                  recv_loop n ((pre ++ hid_line c) ++ o) j
                    (taking (p ++ c) (z - length c) acks sent))
                (omega (arith, length-append pre (hid_line c), length-hid_line c six))
              ∙ recv_loop-Framed h (pre ++ hid_line c) (p ++ c) (z - length c) acks sent e i' more
                  (omega arith) known'
              ∙ ap (λ j. some (taking [] j acks (sent ++ (e ∷ []))))
                  (omega (arith, length-append p c)))
    ])
