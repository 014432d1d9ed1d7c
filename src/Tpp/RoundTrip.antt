-- ===== src/Tpp/RoundTrip.antt =====
-- `make_cmd` and the receiving loop are inverse to one another.
use upil.Common.{
  ℕ, ◌+◌, ◌-◌, ◌/◌, ◌%◌, ◌≤◌, ◌<◌, ◌≡◌, refl, sym, ap, ◌∙◌, some, true, List, [], ◌∷◌, ◌++◌, length,
  arith, leb,
}
use native.Mathlib.Nat.{mod-eq_of_lt}
use upil.Common.Memory.{Bytes}
use upil.Tpp.Defs.{TppEvt, zeros, tp_flag, buf_bytes}
use upil.Tpp.Send.{tp_pdu, make_cmd, one_byte, make_lines, hid_line}
use upil.Tpp.Receive.{tppdu2event, recv_loop}
use upil.Tpp.Framing.{Made, make_lines-Made}
use upil.Tpp.Reassembly.{IsPdu, taking, recv_loop-Framed}

-- The bytes of a command with its parameters.
abbrev pub pdu_of : ℕ → Bytes → Bytes
pdu_of id param = tp_flag ∷ (1 + length param) % 256 ∷ id % 256 ∷ param

pdu_of-IsPdu : (id : ℕ) (param : Bytes) → length param ≤ 57 → IsPdu (pdu_of id param)
pdu_of-IsPdu id param h = record {
  size = (1 + length param) % 256;
  rest = id % 256 ∷ param;
  shape = refl;
  sized = omega arith;
}

pub make_cmd-Made :
    (reply : Bytes) (id : ℕ) (param : Bytes)
    → length reply ≡ buf_bytes
    → length param ≤ 57
    → Made (length (pdu_of id param)) [] reply (pdu_of id param) 0
make_cmd-Made reply id param h small =
    make_lines-Made (length (pdu_of id param)) [] reply (pdu_of id param) 0 (omega arith)
      (omega arith)

-- `make_cmd`, on a reply buffer of 80 bytes and at most 57 parameter bytes, stays inside its
-- buffers and returns one line for every six bytes of the PDU, the last one perhaps not full. If a
-- receiver that holds nothing reads these lines, it sends exactly one event, which `tppdu2event`
-- makes of the PDU with its flag, size, command and parameters, and again holds nothing.
pub recv_loop-make_cmd :
    (reply : Bytes) (id : ℕ) (param : Bytes) (acks : ℕ) (sent : List TppEvt) (e : TppEvt)
    → length reply ≡ buf_bytes
    → length param ≤ 57
    → tppdu2event (pdu_of id param ++ zeros (buf_bytes - length (pdu_of id param))) ≡ some e
    → (lines : Bytes) × (make_cmd reply id param ≡ some (lines, (length param + 8) / 6))
      × (length lines ≡ buf_bytes)
      × (recv_loop ((length param + 8) / 6) lines 0 (taking [] buf_bytes acks sent)
          ≡ some (taking [] buf_bytes acks (sent ++ (e ∷ []))))
unfolding make_cmd tp_pdu
recv_loop-make_cmd reply id param acks sent e h small known =
    let m = make_cmd-Made reply id param h small in
    let n : m.n ≡ (length param + 8) / 6 = omega (arith, m.count) in
    let n' : 0 + m.n ≡ (length param + 8) / 6 = omega (arith, m.count) in
    let fits : leb (3 + length param) buf_bytes ≡ true = ground arith in
    (
      m.out,
      rw fits (m.runs ∙ ap (λ k. some (m.out, k)) n'),
      omega (arith, m.same_length),
      ap (λ k. recv_loop k m.out 0 (taking [] buf_bytes acks sent)) (sym n)
          ∙ recv_loop-Framed m.framed [] [] buf_bytes acks sent e (pdu_of-IsPdu id param small)
              (omega arith) (omega arith) known,
    )

-- The fixed line of `TPP_CMD_ONEBYTE` is the one that `make_cmd` builds of a command with no
-- parameters, in any buffer of 80 bytes.
pub one_byte-make_cmd :
    (reply : Bytes) (cmd : ℕ)
    → length reply ≡ buf_bytes
    → cmd < 256
    → one_byte reply cmd ≡ make_cmd reply cmd []
unfolding make_cmd tp_pdu one_byte make_lines hid_line
one_byte-make_cmd reply cmd h small = rw (mod-eq_of_lt small)
