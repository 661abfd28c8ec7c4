-- ===== src/Writer/Delivery.antt =====
-- writer_write and writer_push_packet_to_backlog of writer.c: what becomes of a packet.
use daemonlib.Base.{
  inl, inr, Bool-cases, ℕ, ◌+◌, ◌≤◌, ◌<◌, ◌≡◌, refl, sym, ap, ◌∙◌, subst, Bool, ◌&&◌, not,
  if◌then◌else◌, length-append, true, false, List, [], ◌∷◌, ◌++◌, append_assoc, append-nil, take,
  drop, length, take-append-drop, take_all, ltb, leb, ◌==◌, arith,
}
use daemonlib.Writer.{
  max_queued_writes, PartialPacket, Writer, Io, took, would_block, io_error, Env, Outcome, failed,
  sent_all, queued, make_room, writer_push_packet_to_backlog, outcome_of, writer_write,
}
use daemonlib.Writer.Bytes.{pending, stream, pending-append}

-- Whether a packet for the backlog gets there with its write event registered.
abbrev pub accepts : Env → Writer → Bool
accepts env w = if length w.backlog == 0 then env.events else true

-- Whether the writer waits for write events then.
abbrev pub awaits : Env → Writer → Bool
awaits env w = if length w.backlog == 0 && env.events then true else w.registered

push-backlog :
    (env : Env) (packet : List ℕ) (n : ℕ) (w : Writer)
    → length w.backlog < max_queued_writes
    → env.memory ≡ true
    → writer_push_packet_to_backlog env packet n w ≡ (
      accepts env w,
      record w {
        backlog = w.backlog ++ (record { packet = packet; written = n } ∷ []);
        registered = awaits env w;
      },
    )
unfolding writer_push_packet_to_backlog make_room
push-backlog env packet n w room memory =
    let q : PartialPacket = record { packet = packet; written = n } in
    let size = length-append w.backlog (q ∷ []) in
    let free : leb max_queued_writes (length w.backlog) ≡ false = ground (arith, room) in
    elim (Bool-cases (length w.backlog == 0)) [
      | inr busy ↦
          let more : (length (w.backlog ++ (q ∷ [])) == 1) ≡ false = ground (arith, busy, size) in
          simp (memory, free, busy, more) refl
      | inl idle ↦
          let one : (length (w.backlog ++ (q ∷ [])) == 1) ≡ true = ground (arith, idle, size) in
          elim (Bool-cases env.events) [
            | inl watched ↦ simp (memory, free, idle, one, watched) refl
            | inr refused ↦ simp (memory, free, idle, one, refused) refl
          ]
    ]

pub outcome_of-writer : (r : Bool × Writer) → (outcome_of r).1 ≡ r.1
outcome_of-writer (true, w) = refl
outcome_of-writer (false, w) = refl

outcome_of-pair : (ok : Bool) (w : Writer) → outcome_of (ok, w) ≡ (if ok then queued else failed, w)
outcome_of-pair true w = refl
outcome_of-pair false w = refl

-- What becomes of a packet: the recipient is given up, all of it is sent, or what is not sent is queued.
pub data Course : Type 0 where
  gives_up sends queues : Course

-- Only without a backlog is anything written, and only an error that is not for now gives up.
abbrev pub course : Io → List ℕ → Writer → Course
course io packet w = if not (length w.backlog == 0) then queues else elim io [
  | would_block ↦ queues
  | io_error ↦ gives_up
  | took n ↦ if ltb n (length packet) then queues else sends
]

-- What `writer_write` has done: the result, what the recipient has and will get, whether it was
-- disconnected and whether the writer waits for write events.
abbrev pub Delivers : Env → List ℕ → Writer → Course → Outcome × Writer → Type 0
Delivers env packet w gives_up (r, w') =
    (r ≡ failed)
    × (stream w' ≡ stream w)
    × (w'.disconnects ≡ w.disconnects + 1)
    × (w'.registered ≡ w.registered)
Delivers env packet w sends (r, w') =
    (r ≡ sent_all)
    × (stream w' ≡ stream w ++ packet)
    × (w'.disconnects ≡ w.disconnects)
    × (w'.registered ≡ w.registered)
    × (w'.backlog ≡ w.backlog)
Delivers env packet w queues (r, w') =
    (r ≡ (if accepts env w then queued else failed))
    × (stream w' ≡ stream w ++ packet)
    × (w'.disconnects ≡ w.disconnects)
    × (w'.registered ≡ awaits env w)

-- The writer after a packet of which `n` bytes are written is pushed.
abbrev with_packet : Env → List ℕ → ℕ → Writer → Writer
with_packet env packet n w = record w {
  backlog = w.backlog ++ (record { packet = packet; written = n } ∷ []);
  registered = awaits env w;
}

with_packet-stream :
    (env : Env) (packet : List ℕ) (n : ℕ) (w : Writer)
    → stream (with_packet env packet n w) ≡ stream w ++ drop n packet
with_packet-stream env packet n w =
    let q : PartialPacket = record { packet = packet; written = n } in
    ap (λ l. w.sent ++ l)
      (pending-append w.backlog (q ∷ [])
        ∙ ap (λ l. pending w.backlog ++ l) (append-nil (drop n packet)))
    ∙ sym (append_assoc w.sent (pending w.backlog) (drop n packet))

-- A push delivers what is left of the packet, where `w'` has sent the rest.
pub push-Delivers :
    (env : Env) (packet : List ℕ) (n : ℕ) (w : Writer) (sent : List ℕ)
    → length w.backlog < max_queued_writes
    → env.memory ≡ true
    → let w' = record w { sent = sent } in
      stream w' ++ drop n packet ≡ stream w ++ packet
      → Delivers env packet w queues (outcome_of (writer_push_packet_to_backlog env packet n w'))
push-Delivers env packet n w sent room memory whole =
    let w' = record w { sent = sent } in
    subst (Delivers env packet w queues)
      (sym (
        ap outcome_of (push-backlog env packet n w' room memory)
        ∙ outcome_of-pair (accepts env w') _))
      (refl, with_packet-stream env packet n w' ∙ whole, refl, refl)

-- The bytes that `io_write` took, and those that it left, make up the packet.
parts :
    (n : ℕ) (packet sent rest : List ℕ)
    → rest ≡ []
    → ((sent ++ take n packet) ++ rest) ++ drop n packet ≡ (sent ++ rest) ++ packet
parts n packet sent rest e =
    rw (e, append-nil (sent ++ take n packet), append-nil sent)
      (append_assoc sent (take n packet) (drop n packet)
        ∙ ap (λ l. sent ++ l) (take-append-drop n packet))

whole :
    (n : ℕ) (packet sent rest : List ℕ)
    → rest ≡ []
    → length packet ≤ n
    → (sent ++ take n packet) ++ rest ≡ (sent ++ rest) ++ packet
whole n packet sent rest e le =
    rw (e, take_all n packet le, append-nil (sent ++ packet), append-nil sent) refl

pub delivered :
    (env : Env) (packet : List ℕ) (w : Writer) {c c' : Course} {r r' : Outcome × Writer}
    → c' ≡ c
    → r' ≡ r
    → Delivers env packet w c r
    → Delivers env packet w c' r'
delivered env packet w {c} {c'} {r} {r'} e f d =
    subst (λ c. Delivers env packet w c r') (sym e) (subst (Delivers env packet w c) (sym f) d)

-- With no backlog, the writer writes at once.
pub write-empty :
    (env : Env) (io : Io) (packet : List ℕ) (w : Writer)
    → w.backlog ≡ []
    → env.memory ≡ true
    → Delivers env packet w (course io packet w) (writer_write env io packet w)
unfolding writer_write
write-empty env would_block packet w e memory =
    let idle : (length w.backlog == 0) ≡ true = ground (arith, e) in
    delivered env packet w {c = queues}
      {r = outcome_of (writer_push_packet_to_backlog env packet 0 w)} (rw idle refl)
      (rw (writer_write, idle) refl)
      (push-Delivers env packet 0 w w.sent (ground (arith, e)) memory refl)
write-empty env io_error packet w e memory =
    let idle : (length w.backlog == 0) ≡ true = ground (arith, e) in
    delivered env packet w {c = gives_up}
      {r = (failed, record w { disconnects = w.disconnects + 1 })} (rw idle refl)
      (rw (writer_write, idle) refl) (refl, refl, refl, refl)
write-empty env (took n) packet w e memory =
    let idle : (length w.backlog == 0) ≡ true = ground (arith, e) in
    elim (Bool-cases (ltb n (length packet))) [
      | inl some_left ↦
          delivered env packet w {c = queues}
            {r = outcome_of (
              writer_push_packet_to_backlog env packet n
                (record w { sent = w.sent ++ take n packet }))}
            (rw (idle, some_left) refl) (rw (writer_write, idle, some_left) refl)
            (push-Delivers env packet n w (w.sent ++ take n packet) (ground (arith, e)) memory
              (parts n packet w.sent (pending w.backlog) (ap pending e)))
      | inr all ↦
          delivered env packet w {c = sends}
            {r = (sent_all, record w { sent = w.sent ++ take n packet })} (rw (idle, all) refl)
            (rw (writer_write, idle, all) refl)
            (
              refl,
              whole n packet w.sent (pending w.backlog) (ap pending e) (ground arith),
              refl,
              refl,
              refl,
            )
    ]
