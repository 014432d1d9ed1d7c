-- ===== src/Phone/Live.antt =====
-- upil_sm.c over state_machine/handler.c and the event loop: the machines that a telephone comes to
-- be while the loop runs, step by step, and the events of their queued messages.
use upil.Common.{
  ℕ, ◌<◌, ◌≡◌, refl, inl, inr, Bool, true, false, ◌||◌, Option, some, List, [], ◌∷◌, ◌++◌,
  Bool-cases, Option-cases, arith, length,
}
use upil.Common.Memory.{Bytes}
use upil.Common.Ensures.{of_ensures}
use upil.Codes.SmState
use upil.Loop.Time.{Timeval, timer_lt}
use upil.Loop.Defs.{
  UpilEvent, Loop, mem, expire, process_timeouts, process_read_readies, event_add, event_del,
  remove_watch, max_fd_events, free_slot,
}
use upil.Loop.Rounds.{Gathers-ready, mem_append}
use upil.Handler.Defs.{Msg, Handler, in_queue, start_handler}
use upil.Handler.Linked.{IsTracked, is_linked, all_linked, more_linked}
use upil.Handler.Tracked.{unlinked, fired-IsTracked, passed-IsTracked, sent-IsTracked}
use upil.StateMachine.Defs.{Fsm, transition_to, sm_process_message}
use upil.StateMachine.Pool.{prepared}
use upil.Phone.Keeps.{overflows}
use upil.Phone.Table.{my_state_table}
use upil.Phone.Ready.{is_sendable}
use upil.Phone.Reached.{
  IsGood, Reachable, started, posted, looped, fired, Reachable-IsGood, started_ready,
  processed-IsReady, handled_reachable,
}
use upil.Control.Commands.{upil_sm_send_msg}

-- The machine with another state of the event loop.
abbrev pub in_loop : Loop → Fsm → Fsm
in_loop l fsm = record fsm { handler = record fsm.handler { loop = l } }

-- After the loop took an event out of its lists, to fire it.
abbrev pub taken_out : ℕ → Fsm → Fsm
taken_out ev fsm = record fsm { handler = unlinked ev fsm.handler }

-- The machines that a telephone comes to be, from its start on: as a message is sent; as the loop
-- sees to the timers and to the descriptors; as it watches a descriptor or stops; as it fires the
-- event of something else; and as it fires the event of a queued message.
pub data Live : Fsm → Type 0 where
  begun :
      (l : Loop) (old fsm : Fsm) (handled : Bool)
      → length old.last_outgoing_num < 128
      → transition_to my_state_table SmState.offline (prepared l old) ≡ some (handled, fsm)
      → Live fsm
  sent :
      (what : ℕ) (payload : Option Bytes) (fsm : Fsm)
      → is_sendable what payload ≡ true
      → Live fsm
      → Live (upil_sm_send_msg what payload fsm).1
  timed :
      (now : Timeval) (fsm : Fsm)
      → Live fsm
      → Live (in_loop (process_timeouts now fsm.handler.loop) fsm)
  gathered :
      (ready : ℕ → Bool) (n : ℕ) (fsm : Fsm)
      → Live fsm
      → Live (in_loop (process_read_readies ready n fsm.handler.loop) fsm)
  watched : (ev : ℕ) (fsm : Fsm) → Live fsm → Live (in_loop (event_add ev fsm.handler.loop) fsm)
  unwatched : (ev : ℕ) (fsm : Fsm) → Live fsm → Live (in_loop (event_del ev fsm.handler.loop) fsm)
  passed :
      (ev : ℕ) (fsm : Fsm)
      → in_queue ev fsm.handler.msg_queue ≡ false
      → Live fsm
      → Live (taken_out ev fsm)
  handled :
      (p q : List Msg) (msg : Msg) (fsm fsm' : Fsm) (ok : Bool)
      → fsm.handler.msg_queue ≡ p ++ (msg ∷ q)
      → sm_process_message my_state_table msg (taken_out msg.id fsm) ≡ some (ok, fsm')
      → Live fsm
      → Live fsm'

-- Each step is one that was allowed before.
pub Live-Reachable : (fsm : Fsm) → Live fsm → Reachable fsm
Live-Reachable _ (begun l old fsm ok h e) = started l old fsm ok h e
Live-Reachable _ (sent what payload fsm s r) = posted what payload fsm s (Live-Reachable fsm r)
Live-Reachable _ (timed now fsm r) = looped _ fsm (Live-Reachable fsm r)
Live-Reachable _ (gathered ready n fsm r) = looped _ fsm (Live-Reachable fsm r)
Live-Reachable _ (watched ev fsm r) = looped _ fsm (Live-Reachable fsm r)
Live-Reachable _ (unwatched ev fsm r) = looped _ fsm (Live-Reachable fsm r)
Live-Reachable _ (passed ev fsm n r) = looped _ fsm (Live-Reachable fsm r)
Live-Reachable fsm' (handled p q msg fsm _ ok e done r) =
    fired p q msg (taken_out msg.id fsm) fsm' ok e done (looped _ fsm (Live-Reachable fsm r))

-- What is a timer or pending stays so.
abbrev Stays : Loop → Loop → Type 0
Stays l l' = (k : ℕ) → is_linked k l ≡ true → is_linked k l' ≡ true

mem-expire :
    (events : ℕ → UpilEvent) (now : Timeval) (k : ℕ) (xs : List ℕ)
    → (mem k (expire events now xs).0 || mem k (expire events now xs).1) ≡ mem k xs
unfolding mem expire
mem-expire events now k [] = refl
mem-expire events now k (x ∷ xs) = elim (Bool-cases (timer_lt (events x).timeout now)) [
  | inl gone ↦ rw gone (ground (arith, mem-expire events now k xs))
  | inr stays ↦ rw stays (ground arith)
]

Stays-timeouts : (now : Timeval) (l : Loop) → Stays l (process_timeouts now l)
unfolding process_timeouts
Stays-timeouts now l k m = ground (
  arith,
  m,
  mem-expire l.events now k l.timers,
  mem_append k l.pending (expire l.events now l.timers).1,
)

Stays-readies : (ready : ℕ → Bool) (n : ℕ) (l : Loop) → Stays l (process_read_readies ready n l)
unfolding process_read_readies
Stays-readies ready n l k m =
    let g = Gathers-ready ready max_fd_events 0 n l in
    rw g.same_timers (ground (arith, m, g.grown k))

Stays-add : (ev : ℕ) (l : Loop) → Stays l (event_add ev l)
unfolding event_add mem
Stays-add ev l k m = elim (Option-cases (free_slot 0 l.watch_table)) [
  | inl full ↦ rw (event_add, full) m
  | inr (i, free) ↦ rw (event_add, free) m
]

Stays-del : (ev : ℕ) (l : Loop) → Stays l (event_del ev l)
unfolding event_del remove_watch
Stays-del ev l k m = ground (arith, m)

loop-IsTracked :
    (h : Handler) (l : Loop) → Stays h.loop l → IsTracked h → IsTracked (record h { loop = l })
loop-IsTracked h l s t = record {
  distinct = t.distinct;
  linked = more_linked h.loop l h.msg_queue s t.linked;
}

begun-IsTracked : (l : Loop) (old : Fsm) → IsTracked (prepared l old).handler
unfolding start_handler all_linked
begun-IsTracked l old = record { distinct = tt; linked = refl }

-- The machines of the loop's steps keep the events of their messages.
Live-IsTracked : (fsm : Fsm) → Live fsm → IsTracked fsm.handler
unfolding upil_sm_send_msg
Live-IsTracked _ (begun l old fsm ok h e) =
    (started_ready l old fsm ok h e).tracks (begun-IsTracked l old)
Live-IsTracked _ (sent what payload fsm s r) =
    sent-IsTracked what payload 0 fsm.handler (Live-IsTracked fsm r)
Live-IsTracked _ (timed now fsm r) =
    loop-IsTracked fsm.handler _ (Stays-timeouts now fsm.handler.loop) (Live-IsTracked fsm r)
Live-IsTracked _ (gathered ready n fsm r) =
    loop-IsTracked fsm.handler _ (Stays-readies ready n fsm.handler.loop) (Live-IsTracked fsm r)
Live-IsTracked _ (watched ev fsm r) =
    loop-IsTracked fsm.handler _ (Stays-add ev fsm.handler.loop) (Live-IsTracked fsm r)
Live-IsTracked _ (unwatched ev fsm r) =
    loop-IsTracked fsm.handler _ (Stays-del ev fsm.handler.loop) (Live-IsTracked fsm r)
Live-IsTracked _ (passed ev fsm n r) = passed-IsTracked ev fsm.handler n (Live-IsTracked fsm r)
Live-IsTracked fsm' (handled p q msg fsm _ ok e done r) =
    let before : Fsm = taken_out msg.id fsm in
    let good : IsGood before = Reachable-IsGood before (looped _ fsm (Live-Reachable fsm r)) in
    (of_ensures (rw done at (processed-IsReady msg before good.ready))).tracks
      (fired-IsTracked msg.id fsm.handler (Live-IsTracked fsm r))

linked_middle :
    (l : Loop) (p : List Msg) (m : Msg) (q : List Msg)
    → all_linked l (p ++ (m ∷ q)) ≡ true
    → is_linked m.id l ≡ true
unfolding all_linked
linked_middle l [] m q a = ground (arith, a)
linked_middle l (x ∷ p) m q a = linked_middle l p m q (ground (arith, a))

pub queued_handled :
    (p q : List Msg) (msg : Msg) (fsm : Fsm)
    → Live fsm
    → fsm.handler.msg_queue ≡ p ++ (msg ∷ q)
    → overflows msg fsm ≡ false
    → ((mem msg.id fsm.handler.loop.timers || mem msg.id fsm.handler.loop.pending) ≡ true)
      × (fsm' : Fsm) × (sm_process_message my_state_table msg (taken_out msg.id fsm)
          ≡ some (true, fsm'))
      × Live fsm'
unfolding overflows
queued_handled p q msg fsm r e fit =
    let before : Fsm = taken_out msg.id fsm in
    let (fsm', done, _) =
      handled_reachable p q msg before (looped _ fsm (Live-Reachable fsm r)) e fit in
    (
      linked_middle fsm.handler.loop p msg q (rw e at (Live-IsTracked fsm r).linked),
      fsm',
      done,
      handled p q msg fsm fsm' true e done r,
    )
