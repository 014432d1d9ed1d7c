-- ===== src/Handler/Others.antt =====
-- `sm_remove_message_id` against the messages of other kinds.
use upil.Common.{
  ℕ, ◌≡◌, refl, ap, ◌∙◌, inl, inr, false, List, [], ◌∷◌, ◌++◌, append_assoc, Bool-cases, arith,
  ◌==◌, if◌then◌else◌, length, length-append,
}
use upil.Handler.Defs.{Msg, Handler, in_queue, remove_from_list, remove_ids, remove_message_id}
use upil.Handler.Queue.{IsDistinct, IsSound, in_queue-append, remove_from_list-Removed}

-- The messages of a queue that are not of one kind.
abbrev pub others : ℕ → List Msg → List Msg
others what [] = []
others what (m ∷ q) = let rest = others what q in if m.what == what then rest else m ∷ rest

pub in_queue-distinct :
    (n : ℕ) (p : List Msg) (m : Msg) (q : List Msg)
    → IsDistinct n (p ++ (m ∷ q))
    → in_queue m.id p ≡ false
unfolding in_queue
in_queue-distinct n [] m q d = refl
in_queue-distinct n (x ∷ p) m q d =
    ground (arith, in_queue-distinct n p m q d.2, in_queue-append x.id p (m ∷ q), d.1)

pub IsDistinct-drop :
    (n : ℕ) (p : List Msg) (m : Msg) (q : List Msg)
    → IsDistinct n (p ++ (m ∷ q))
    → IsDistinct n (p ++ q)
unfolding in_queue
IsDistinct-drop n [] m q d = d.2
IsDistinct-drop n (x ∷ p) m q d = (
  d.0,
  in_queue-append x.id p q ∙ ground (arith, in_queue-append x.id p (m ∷ q), d.1),
  IsDistinct-drop n p m q d.2,
)

-- What `remove_ids` makes of a handler with the queue `p ++ q`, on the messages `q`.
remove_ids-others :
    (q p : List Msg) (what : ℕ) (h : Handler)
    → h.msg_queue ≡ p ++ q
    → IsSound h
    → let h' = remove_ids q what h in (h'.msg_queue ≡ p ++ others what q) × IsSound h'
unfolding remove_ids
remove_ids-others [] p what h e s = (e, s)
remove_ids-others (m ∷ q) p what h e s = elim (Bool-cases (m.what == what)) [
  | inr other ↦
      rw (other, remove_ids)
        (rw (← append_assoc p (m ∷ []) (others what q))
          (remove_ids-others q (p ++ (m ∷ [])) what h (e ∙ rw (append_assoc p (m ∷ []) q)) s))
  | inl kind ↦
      let d : IsDistinct h.fresh (p ++ (m ∷ q)) = rw e at s.distinct in
      let r = remove_from_list-Removed h p m q e (in_queue-distinct h.fresh p m q d) in
      rw (kind, remove_ids)
        (remove_ids-others q p what (remove_from_list m.id h) r.queue (record {
          no_defers = r.defers ∙ s.no_defers;
          counted =
              rw (r.count, r.queue)
                (omega (arith, s.counted, ap length e, length-append p (m ∷ q), length-append p q));
          capped = rw r.count (omega (arith, s.capped));
          distinct = rw (r.queue, r.same_fresh) (IsDistinct-drop h.fresh p m q d);
        }))
]

-- `sm_remove_message_id` on a sound handler leaves exactly the messages of other kinds, in their
-- order, and a sound handler.
pub remove_message_id-others :
    (what : ℕ) (h : Handler)
    → IsSound h
    → let h' = remove_message_id what h in (h'.msg_queue ≡ others what h.msg_queue) × IsSound h'
unfolding remove_message_id remove_ids
remove_message_id-others what h s =
    let h' = remove_ids h.msg_queue what h in
    let r = remove_ids-others h.msg_queue [] what h refl s in
    let same : remove_message_id what h ≡ h' = ap (λ ds. remove_ids ds what h') r.1.no_defers in
    rw same r
