-- ===== src/Tpp/Safety.antt =====
-- What holds of the buffer `s_pdu_buf` between two frames, and the confirmations that break it.
use upil.Common.{
  ℕ, zero, suc, ◌+◌, ◌-◌, ◌/◌, ◌%◌, ◌≤◌, ◌<◌, ◌≡◌, refl, sym, ap, ◌∙◌, inl, inr, Option, none, some,
  true, [], ◌∷◌, ◌++◌, append_assoc, length, drop, set, get_or, length-append, length-take,
  length-drop, Bool-cases, arith, ltb, ◌==◌,
}
use upil.Common.Memory.{Bytes, ◌>>=◌, read_n, write_n}
use upil.Common.Buffers.{
  write_n-append, length-write_n, write_n_fits, write_n_overflow, >>=-eq-some,
}
use upil.Common.Ensures.{Ensures, returns, Ensures-bind, of_ensures, bind_fault}
use upil.Tpp.Defs.{
  TppEvt, Verdict, bad, partial, complete, Status, Assembly, Receiver, zeros, buf_bytes, line_bytes,
  hid_flag,
}
use upil.Tpp.Receive.{
  tppdu2event, hidpdu2event, judged, cleared, is_ack, settled, recv_frame, recv_loop,
  tpp_recv_event_cb,
}
use upil.Tpp.Reassembly.{length-zeros, drop-zeros, holding, empty, cleared_lem}

-- `s_pdu_buf` has its 80 bytes: those received, as many as `s_pdu_offset` says, and zeros.
pub record IsReady (a : Assembly) : Type 0 where
  pub held : Bytes
  pub free : ℕ
  pub shape : a ≡ holding held free
  pub total : length held + free ≡ buf_bytes

pub empty-IsReady : IsReady (empty buf_bytes)
empty-IsReady = record { held = []; free = buf_bytes; shape = refl; total = refl }

length-read_n : (mem : Bytes) (off n : ℕ) {c : Bytes} → read_n mem off n ≡ some c → length c ≡ n
unfolding read_n
length-read_n mem off n h = ground (arith, length-take n (drop off mem), length-drop off mem)

-- Clearing an assembly makes it all zeros.
pub cleared_of_IsReady : (a : Assembly) → IsReady a → cleared a ≡ some (empty buf_bytes)
cleared_of_IsReady a i = rw i.shape (cleared_lem i.held i.free ∙ ap (λ n. some (empty n)) i.total)

-- Bytes that are stored at the offset move it, and leave zeros behind.
stored-IsReady :
    (a : Assembly) (c : Bytes) {m : Bytes}
    → IsReady a
    → write_n a.buf a.offset c ≡ some m
    → IsReady (record { buf = m; offset = a.offset + length c })
stored-IsReady a c {m} i h =
    let w : write_n (i.held ++ zeros i.free) (length i.held) c ≡ some m = rw i.shape at h in
    let fits : length c ≤ i.free = omega (
      arith,
      write_n_fits (i.held ++ zeros i.free) (length i.held) c w,
      length-append i.held (zeros i.free),
      length-zeros i.free,
    ) in
    let new : some m ≡ some ((i.held ++ c) ++ zeros (i.free - length c)) =
      sym w
      ∙ write_n-append i.held (zeros i.free) c (omega (arith, length-zeros i.free))
      ∙ rw (drop-zeros (length c) i.free, append_assoc i.held c (zeros (i.free - length c))) in
    let m_is : m ≡ (i.held ++ c) ++ zeros (i.free - length c) = cc new in
    record {
      held = i.held ++ c;
      free = i.free - length c;
      shape = rw (m_is, i.shape, length-append i.held c);
      total = omega (arith, i.total, length-append i.held c);
    }

abbrev VerdictReady : Verdict × Assembly × Option TppEvt → Type 0
VerdictReady (v, a, e) = IsReady a

judged-IsReady : (v : Verdict) (a : Assembly) → IsReady a → Ensures VerdictReady (judged v a)
unfolding judged
judged-IsReady bad a i = returns i
judged-IsReady partial a i = returns i
judged-IsReady complete a i = Ensures-bind (tppdu2event a.buf) _ (λ e _. returns i)

pub hidpdu2event-IsReady :
    (frame : Bytes) (a : Assembly) → IsReady a → Ensures VerdictReady (hidpdu2event frame a)
unfolding hidpdu2event
hidpdu2event-IsReady frame a i = elim (Bool-cases (get_or frame 0 0 == hid_flag)) [
  | inr other ↦ rw other (returns i)
  | inl flagged ↦ rw flagged (
      Ensures-bind (read_n frame 2 (get_or frame 1 0)) _ λ c read.
        Ensures-bind (write_n a.buf a.offset c) _ λ m written.
          let stored : IsReady (record { buf = m; offset = a.offset + get_or frame 1 0 }) =
            rw (length-read_n frame 2 (get_or frame 1 0) read) at (stored-IsReady a c i written) in
          elim (Bool-cases (ltb 0 (get_or frame 1 0))) [
            | inl some_bytes ↦ rw some_bytes (judged-IsReady _ _ stored)
            | inr no_bytes ↦ rw no_bytes (returns stored)
          ])
]

abbrev ReceiverReady : Receiver → Type 0
ReceiverReady r = IsReady r.assembly

settled-IsReady :
    (v : Verdict × Assembly × Option TppEvt) (r : Receiver)
    → VerdictReady v
    → Ensures ReceiverReady (settled v r)
unfolding settled
settled-IsReady (partial, a, e) r i = returns i
settled-IsReady (bad, a, e) r i = rw (cleared_of_IsReady a i) (returns empty-IsReady)
settled-IsReady (complete, a, none) r i = rw (cleared_of_IsReady a i) (returns empty-IsReady)
settled-IsReady (complete, a, some e) r i = rw (cleared_of_IsReady a i) (returns empty-IsReady)

-- What follows the treatment of a confirmation in `recv_frame`.
heard-IsReady :
    (frame buf : Bytes) (a : Assembly) (r : Receiver)
    → IsReady a
    → Ensures {A = Bytes × Receiver}
        (λ x. IsReady x.1.assembly)
        (hidpdu2event frame a >>= λ v. settled v r >>= λ r'. some (buf, r'))
heard-IsReady frame buf a r i = Ensures-bind (hidpdu2event frame a) _ λ v heard.
    Ensures-bind (settled v r) _ λ r' settle. returns (
      of_ensures (
        rw settle at
          (settled-IsReady v r (of_ensures (rw heard at (hidpdu2event-IsReady frame a i))))))

pub recv_frame-IsReady :
    (buf : Bytes) (pos : ℕ) (r : Receiver)
    → IsReady r.assembly
    → Ensures {A = Bytes × Receiver} (λ x. IsReady x.1.assembly) (recv_frame buf pos r)
unfolding recv_frame
recv_frame-IsReady buf pos r i = elim (Bool-cases (is_ack (drop pos buf))) [
  | inl ack ↦
      rw (ack, cleared_of_IsReady r.assembly i)
        (heard-IsReady _ _ (empty buf_bytes) _ empty-IsReady)
  | inr no_ack ↦ rw no_ack (heard-IsReady _ buf r.assembly r i)
]

pub recv_loop-IsReady :
    (n : ℕ) (buf : Bytes) (pos : ℕ) (r : Receiver)
    → IsReady r.assembly
    → Ensures ReceiverReady (recv_loop n buf pos r)
unfolding recv_loop
recv_loop-IsReady zero buf pos r i = returns i
recv_loop-IsReady (suc n) buf pos r i = Ensures-bind (recv_frame buf pos r) _ λ x got.
    recv_loop-IsReady n x.0 (pos + line_bytes) x.1
      (of_ensures (rw got at (recv_frame-IsReady buf pos r i)))

callback-IsReady :
    (got : Option ℕ) (buf : Bytes) (r : Receiver)
    → IsReady r.assembly
    → Ensures {A = Status × Receiver} (λ x. IsReady x.1.assembly) (tpp_recv_event_cb got buf r)
unfolding tpp_recv_event_cb
callback-IsReady none buf r i = returns i
callback-IsReady (some n) buf r i =
    Ensures-bind (recv_loop (n / line_bytes) buf 0 r) _
      λ q run. returns (of_ensures (rw run at (recv_loop-IsReady (n / line_bytes) buf 0 r i)))

-- Whatever bytes a read delivers, and also when it fails: if the callback stays inside its
-- buffers, and `s_pdu_buf` holds the bytes that `s_pdu_offset` counts and behind them zeros, 80
-- bytes in all, then it does so afterwards.
pub tpp_recv_event_cb-IsReady :
    (got : Option ℕ) (buf : Bytes) (r r' : Receiver) (st : Status)
    → IsReady r.assembly
    → tpp_recv_event_cb got buf r ≡ some (st, r')
    → IsReady r'.assembly
tpp_recv_event_cb-IsReady got buf r r' st i h = of_ensures (rw h at (callback-IsReady got buf r i))

drop-set : (buf : Bytes) (i v pos : ℕ) → i < pos → drop pos (set buf i v) ≡ drop pos buf
drop-set [] i v pos h = refl
drop-set (x ∷ buf) i v zero h = absurd (omega arith)
drop-set (x ∷ buf) zero v (suc pos) h = refl
drop-set (x ∷ buf) (suc i) v (suc pos) h = drop-set buf i v pos (omega arith)

-- A frame whose bytes do not fit behind those held is written outside `s_pdu_buf`.
hidpdu2event_overflow :
    (frame : Bytes) (a : Assembly)
    → get_or frame 0 0 ≡ hid_flag
    → length a.buf < a.offset + get_or frame 1 0
    → hidpdu2event frame a ≡ none
unfolding hidpdu2event
hidpdu2event_overflow frame a flagged over = rw flagged (
    bind_fault (read_n frame 2 (get_or frame 1 0)) _ λ c read. rw (
      write_n_overflow a.buf a.offset c
        (omega (arith, over, length-read_n frame 2 (get_or frame 1 0) read))))

is_ack_size :
    (frame : Bytes) → is_ack frame ≡ true → (get_or frame 0 0 ≡ hid_flag) × (128 ≤ get_or frame 1 0)
unfolding is_ack
is_ack_size frame h = ground arith

length-cleared : (a : Assembly) {b : Assembly} → cleared a ≡ some b → length b.buf ≡ length a.buf
unfolding cleared
length-cleared a {b} h =
    let (m, written, h1) = >>=-eq-some (write_n a.buf 0 (zeros a.offset)) _ h in
    let b_is : m ≡ b.buf = cc h1 in rw (← b_is) (length-write_n a.buf 0 (zeros a.offset) written)

-- A confirmation that is not the first frame of a read keeps its size of 128 or more, since the
-- mask is put on the first frame: the bytes it announces do not fit into an `s_pdu_buf` of 80.
pub recv_frame-is_ack_later :
    (buf : Bytes) (pos : ℕ) (r : Receiver)
    → length r.assembly.buf ≡ buf_bytes
    → 2 ≤ pos
    → is_ack (drop pos buf) ≡ true
    → recv_frame buf pos r ≡ none
unfolding recv_frame
recv_frame-is_ack_later buf pos r h later ack =
    let (flag, size) = is_ack_size (drop pos buf) ack in
    rw ack (
      bind_fault (cleared r.assembly) _ λ a clear. rw (
        drop-set buf 1 (get_or buf 1 0 % 64) pos later,
        hidpdu2event_overflow (drop pos buf) a flag
            (omega (arith, size, length-cleared r.assembly clear, h)),
      ))

-- A confirmation of size 0 at the start of a read: it is counted, the PDU under assembly is
-- dropped, no event is sent, and the byte of its size is masked.
pub recv_frame-is_ack_first :
    (buf : Bytes) (r : Receiver)
    → IsReady r.assembly
    → get_or buf 0 0 ≡ hid_flag
    → get_or buf 1 0 ≡ 0x80
    → recv_frame buf 0 r
      ≡ some (set buf 1 0, record { assembly = empty buf_bytes; acks = r.acks + 1; sent = r.sent })
unfolding recv_frame is_ack hidpdu2event settled read_n write_n
recv_frame-is_ack_first (x ∷ y ∷ buf) r i flag size =
    rw (flag, size, cleared_of_IsReady r.assembly i) (ground (arith, length-zeros buf_bytes))
recv_frame-is_ack_first _ r i flag size = ground arith
