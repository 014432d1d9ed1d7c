-- ===== src/Client/Connection.antt =====
-- upil_ctrl.c: the descriptors of a client.
use upil.Common.{
  ℕ, ◌≡◌, refl, ap, ◌∙◌, Bool, true, false, Option, none, some, List, [], ◌∷◌, ◌++◌, ltb, ◌==◌,
  if◌then◌else◌, length, arith, Option-cases, inl, inr,
}
use upil.Common.Memory.{Bytes, ◌>>=◌}

-- `s_fd_sender`, `s_fd_monitor` and `s_fd_wakeup`, `none` for -1; the calls of `close` that were made,
-- and the descriptors that a byte was written to.
pub record Client : Type 0 where
  pub fd_sender : Option ℕ
  pub fd_monitor : Option ℕ
  pub fd_wakeup : Option ℕ
  pub closed : List ℕ
  pub poked : List ℕ

-- `if (fd >= 0) close(fd);`
abbrev pub close : Option ℕ → Client → Client
close none c = c
close (some fd) c = record c { closed = c.closed ++ (fd ∷ []) }

-- A socket that `socket` gave, `none` for -1, and whether `connect` succeeds. Descriptor 0 is taken
-- for an error.
abbrev pub is_connected : Option ℕ → Bool → Bool
is_connected none accepted = false
is_connected (some fd) accepted = if fd == 0 then false else accepted

-- `upil_ctrl_connect`; the result is true for 0.
unfoldable pub upil_ctrl_connect : Option ℕ → Bool → Client → Bool × Client
upil_ctrl_connect fd accepted c = (is_connected fd accepted, record c { fd_sender = fd })

-- `upil_ctrl_disconnect`, as it is written: it is `s_fd_monitor` that is reset.
unfoldable pub upil_ctrl_disconnect : Client → Client
upil_ctrl_disconnect c = record (close c.fd_sender c) { fd_monitor = none }

-- `upil_monitor_connect`
unfoldable pub upil_monitor_connect : Option ℕ → Bool → Client → Bool × Client
upil_monitor_connect fd accepted c = (is_connected fd accepted, record c { fd_monitor = fd })

-- `if (s_fd_wakeup >= 0) write(s_fd_wakeup, ".", 1);`
abbrev pub poke : Option ℕ → Client → Client
poke none c = c
poke (some fd) c = record c { poked = c.poked ++ (fd ∷ []) }

-- `upil_monitor_disconnect`
unfoldable pub upil_monitor_disconnect : Client → Client
upil_monitor_disconnect c =
    let woken = record (poke c.fd_wakeup c) { fd_wakeup = none } in
    record (close woken.fd_monitor woken) { fd_monitor = none }

-- `upil_connect`: the results 0, -1 and -2.
pub data Connected : Type 0 where
  both no_command no_monitor : Connected

-- The two sockets, and whether each is connected.
unfoldable pub upil_connect : Option ℕ × Bool → Option ℕ × Bool → Client → Connected × Client
upil_connect (fd, accepted) (fd', accepted') c =
    let (first, c1) = upil_ctrl_connect fd accepted c in
    let (second, c2) = upil_monitor_connect fd' accepted' c1 in
    if first
    then (if second then (both, c2) else (no_monitor, upil_ctrl_disconnect c2))
    else (no_command, c1)

-- `upil_disconnect`
unfoldable pub upil_disconnect : Client → Client
unfolding upil_ctrl_disconnect upil_monitor_disconnect
upil_disconnect c = upil_monitor_disconnect (upil_ctrl_disconnect c)

-- What `upil_monitor_recv` waits for: `pipe` fails, the monitor's socket is not ready, or `recv`
-- returns, `none` for an error or the end.
pub data Arrival : Type 0 where
  no_pipe not_ready : Arrival
  received : Option Bytes → Arrival

-- `upil_monitor_recv`, into a buffer of `buf_size` bytes: the result, `none` for -1, the bytes stored
-- with the zero behind them, and the client, whose `s_fd_wakeup` becomes 0. The whole is `none` for
-- the write to `buf[-1]`.
unfoldable pub upil_monitor_recv : Arrival → Client → Option (Option ℕ × (Bytes × Client))
upil_monitor_recv no_pipe c = some (none, ([], c))
upil_monitor_recv not_ready c = some (none, ([], record c { fd_wakeup = some 0 }))
upil_monitor_recv (received none) c = none
upil_monitor_recv (received (some [])) c = none
upil_monitor_recv (received (some (b ∷ bs))) c =
    some (some (ℕ.suc (length bs)), ((b ∷ bs) ++ (0 ∷ []), record c { fd_wakeup = some 0 }))

-- `upil_ril_read`: it reads again, and so drops what it read first.
unfoldable pub upil_ril_read : Arrival → Arrival → Client → Option (Option ℕ × (Bytes × Client))
upil_ril_read a a' c = upil_monitor_recv a c >>= λ (rb, (bytes, c')). elim rb [
  | none ↦ some (none, (bytes, c'))
  | some n ↦ upil_monitor_recv a' c'
]

connected :
    (s m : ℕ) (c : Client)
    → ltb 0 s ≡ true
    → ltb 0 m ≡ true
    → upil_connect (some s, true) (some m, true) c
      ≡ (both, record c { fd_sender = some s; fd_monitor = some m })
unfolding upil_connect upil_ctrl_connect upil_monitor_connect
connected s m c h k = ground (arith, h, k)

disconnected :
    (c : Client) (s : ℕ)
    → c.fd_sender ≡ some s
    → let d = upil_disconnect c in
      (d.closed ≡ c.closed ++ (s ∷ [])) × (d.fd_monitor ≡ none) × (d.fd_sender ≡ some s)
unfolding upil_disconnect upil_ctrl_disconnect upil_monitor_disconnect
disconnected c s e = elim (Option-cases c.fd_wakeup) [
  | inl w ↦ rw (e, w) (refl, refl, refl)
  | inr (fd, w) ↦ rw (e, w) (refl, refl, refl)
]

-- A client that connects, and disconnects, has closed the socket for its commands, but never closes
-- that of the monitor, which it no longer knows; and when it disconnects once more, it closes the
-- first of the two again.
pub upil_disconnect_leaves :
    (s m : ℕ) (c : Client)
    → ltb 0 s ≡ true
    → ltb 0 m ≡ true
    → let first = upil_disconnect (upil_connect (some s, true) (some m, true) c).1 in
      (first.closed ≡ c.closed ++ (s ∷ []))
      × (first.fd_monitor ≡ none)
      × (first.fd_sender ≡ some s)
      × ((upil_disconnect first).closed ≡ (c.closed ++ (s ∷ [])) ++ (s ∷ []))
upil_disconnect_leaves s m c h k =
    let both_up : Client = record c { fd_sender = some s; fd_monitor = some m } in
    let first = disconnected both_up s refl in
    rw (connected s m c h k) (
      first.0,
      first.1,
      first.2,
      (disconnected (upil_disconnect both_up) s first.2).0 ∙ ap (λ ds. ds ++ (s ∷ [])) first.0,
    )
