-- ===== src/Writer/Backlog.antt =====
-- writer.c: the bound of the backlog, and what is dropped to keep it.
use daemonlib.Writer.Delivery.{outcome_of-writer}
use daemonlib.Writer.Stream.{backlog-cases}
use daemonlib.Base.{
  take, ap, ◌∙◌, ℕ, suc, ◌≤◌, ◌<◌, ◌≡◌, refl, true, false, List, [], ◌∷◌, ◌++◌, length,
  length-append, ltb, ◌==◌, arith, Bool-cases, inl, inr, if_both,
}
use daemonlib.Writer.{
  max_queued_writes, PartialPacket, Writer, Io, took, would_block, io_error, Env, Outcome,
  finish_first, writer_handle_write, drop_loop, make_room, writer_push_packet_to_backlog,
  outcome_of, writer_write,
}

abbrev pub Bounded : Writer → Type 0
Bounded w = length w.backlog ≤ max_queued_writes

drop_loop-room : (ps : List PartialPacket) → length (drop_loop ps) < max_queued_writes
unfolding drop_loop
drop_loop-room [] = omega arith
drop_loop-room (p ∷ ps) = ground (arith, drop_loop-room ps)

drop_loop_small : (ps : List PartialPacket) → length ps < max_queued_writes → drop_loop ps ≡ ps
unfolding drop_loop
drop_loop_small [] lt = refl
drop_loop_small (p ∷ ps) lt = ground arith

push-Bounded :
    (env : Env) (packet : List ℕ) (n : ℕ) (w : Writer)
    → Bounded w
    → Bounded (outcome_of (writer_push_packet_to_backlog env packet n w)).1
unfolding writer_push_packet_to_backlog make_room
push-Bounded env packet n w bound =
    let q : PartialPacket = record { packet = packet; written = n } in
    ground (
      arith,
      drop_loop-room w.backlog,
      length-append w.backlog (q ∷ []),
      length-append (drop_loop w.backlog) (q ∷ []),
    )

handle-Bounded : (io : Io) (w : Writer) → Bounded w → Bounded (writer_handle_write io w)
unfolding writer_handle_write finish_first
handle-Bounded io w bound = elim (backlog-cases w.backlog) [
  | inl e ↦ ground (arith, e)
  | inr (p, ps, e) ↦
      let le : suc (length ps) ≤ max_queued_writes = ground (arith, e) in ground (arith, e)
]

write_idle-Bounded :
    (env : Env) (io : Io) (packet : List ℕ) (w : Writer)
    → Bounded w
    → (length w.backlog == 0) ≡ true
    → Bounded (writer_write env io packet w).1
unfolding writer_write
write_idle-Bounded env would_block packet w bound idle =
    rw (writer_write, idle) (push-Bounded env packet 0 w bound)
write_idle-Bounded env io_error packet w bound idle = rw (writer_write, idle) bound
write_idle-Bounded env (took n) packet w bound idle =
    let w' = record w { sent = w.sent ++ take n packet } in
    rw (writer_write, idle)
      (if_both (λ (r : Outcome × Writer). Bounded r.1) (ltb n (length packet))
        (push-Bounded env packet n w' bound) bound)

write-Bounded :
    (env : Env) (io : Io) (packet : List ℕ) (w : Writer)
    → Bounded w
    → Bounded (writer_write env io packet w).1
unfolding writer_write
write-Bounded env io packet w bound = elim (Bool-cases (length w.backlog == 0)) [
  | inl idle ↦ write_idle-Bounded env io packet w bound idle
  | inr busy ↦ rw (writer_write, busy) (push-Bounded env packet 0 w bound)
]

-- Neither `writer_write` nor `writer_handle_write` ever leaves more than `max_queued_writes` packets in
-- the backlog.
writer-Bounded :
    (env : Env) (io : Io) (packet : List ℕ) (w : Writer)
    → Bounded w
    → Bounded (writer_write env io packet w).1 × Bounded (writer_handle_write io w)
writer-Bounded env io packet w bound =
    (write-Bounded env io packet w bound, handle-Bounded io w bound)

push-full :
    (env : Env) (packet : List ℕ) (n : ℕ) (w : Writer) (p : PartialPacket) (ps : List PartialPacket)
    → w.backlog ≡ p ∷ ps
    → length w.backlog ≡ max_queued_writes
    → env.memory ≡ true
    → let r = writer_push_packet_to_backlog env packet n w in
      (r.1.sent ≡ w.sent) × (r.1.backlog ≡ ps ++ (record { packet = packet; written = n } ∷ []))
unfolding writer_push_packet_to_backlog make_room drop_loop
push-full env packet n w p ps e full memory =
    let le : suc (length ps) ≡ max_queued_writes = ground (arith, e) in
    let kept : drop_loop w.backlog ≡ ps =
      ap drop_loop e ∙ ground (arith, drop_loop_small ps (omega (arith, le))) in
    ground (arith, memory, kept)

-- On a full backlog whose first packet has been sent in part, `writer_write` drops the rest of that
-- packet: the recipient gets the start of it and then the next packets.
pub writer_write_cuts :
    (env : Env) (io : Io) (packet : List ℕ) (w : Writer) (p : PartialPacket)
    (ps : List PartialPacket)
    → w.backlog ≡ p ∷ ps
    → length w.backlog ≡ max_queued_writes
    → env.memory ≡ true
    → let w' = (writer_write env io packet w).1 in
      (w'.sent ≡ w.sent) × (w'.backlog ≡ ps ++ (record { packet = packet; written = 0 } ∷ []))
unfolding writer_write
writer_write_cuts env io packet w p ps e full memory =
    let busy : (length w.backlog == 0) ≡ false = ground (arith, full) in
    let (same, more) = push-full env packet 0 w p ps e full memory in
    let out = outcome_of-writer (writer_push_packet_to_backlog env packet 0 w) in
    rw (writer_write, busy) (ap (λ v. v.sent) out ∙ same, ap (λ v. v.backlog) out ∙ more)
