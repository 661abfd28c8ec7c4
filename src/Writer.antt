-- ===== src/Writer.antt =====
-- writer.c: sends packets to a recipient, through a backlog while it is not ready. A packet is its
-- `header.length` bytes; the backlog is the list of a queue's items, oldest first. What `io_write`
-- returns is an argument, and `sent` is what it has taken so far.
mod Bytes
mod Delivery
mod Stream
mod Backlog
mod Tests
use daemonlib.Base.{
  ℕ, zero, suc, ◌+◌, ◌-◌, ◌^◌, ◌%◌, Bool, true, false, not, List, [], ◌∷◌, ◌++◌, take, drop, length,
  ltb, leb, ◌==◌, if◌then◌else◌,
}

abbrev pub max_queued_writes : ℕ
max_queued_writes = 32768

abbrev pub dropped_packets_warning_interval : ℕ
dropped_packets_warning_interval = 5000

pub record PartialPacket : Type 0 where
  pub packet : List ℕ
  pub written : ℕ

-- `registered` tells whether the writer waits for write events, `disconnects` counts the calls of
-- `recipient_disconnect`.
pub record Writer : Type 0 where
  pub backlog : List PartialPacket
  pub dropped_packets : ℕ
  pub last_dropped_packets_warning : ℕ
  pub registered : Bool
  pub sent : List ℕ
  pub disconnects : ℕ

-- What `io_write` returns: bytes that it took, or an error, which may be that it would block.
pub data Io : Type 0 where
  took : ℕ → Io
  would_block io_error : Io

-- What the calls in `writer_push_packet_to_backlog` return: the time, whether `queue_push` finds
-- memory, whether `event_modify_source` succeeds.
pub record Env : Type 0 where
  pub now : ℕ
  pub memory : Bool
  pub events : Bool

-- The return values -1, 0 and 1.
pub data Outcome : Type 0 where
  failed sent_all queued : Outcome

pub writer_create : Writer
writer_create = record {
  backlog = [];
  dropped_packets = 0;
  last_dropped_packets_warning = 0;
  registered = false;
  sent = [];
  disconnects = 0;
}

-- The end of `writer_handle_write`, with `p` the first packet of the backlog and `ps` the others.
pub finish_first : PartialPacket → List PartialPacket → Writer → Writer
finish_first p ps w =
    if ltb p.written (length p.packet)
    then record w { backlog = p ∷ ps }
    else record w { backlog = ps; registered = if length ps == 0 then false else w.registered }

pub writer_handle_write : Io → Writer → Writer
writer_handle_write io w = elim w.backlog [
  | [] ↦ w
  | p ∷ ps ↦
      let remaining = drop p.written p.packet in
      if length p.packet - p.written == 0 then finish_first p ps w else elim io [
        | took n ↦
            finish_first (record p { written = p.written + n }) ps
              (record w { sent = w.sent ++ take n remaining })
        | would_block ↦ record w { disconnects = w.disconnects + 1 }
        | io_error ↦ record w { disconnects = w.disconnects + 1 }
      ]
]

-- `while (backlog.count >= MAX_QUEUED_WRITES) queue_pop(...)`
pub drop_loop : List PartialPacket → List PartialPacket
drop_loop [] = []
drop_loop (p ∷ ps) = if leb max_queued_writes (length (p ∷ ps)) then drop_loop ps else p ∷ ps

-- The block for a full backlog; `dropped_packets` is a `uint32_t`.
pub make_room : ℕ → Writer → Writer
make_room now w =
    if leb max_queued_writes (length w.backlog)
    then record w {
      backlog = drop_loop w.backlog;
      dropped_packets = (w.dropped_packets + (length w.backlog - max_queued_writes + 1)) % 2 ^ 32;
      last_dropped_packets_warning =
          if ltb (w.last_dropped_packets_warning + dropped_packets_warning_interval) now
          then now
          else w.last_dropped_packets_warning;
    }
    else w

-- Whether it returns 0, and the writer.
pub writer_push_packet_to_backlog : Env → List ℕ → ℕ → Writer → Bool × Writer
writer_push_packet_to_backlog env packet n w =
    let w' = make_room env.now w in
    let backlog' = w'.backlog ++ (record { packet = packet; written = n } ∷ []) in
    if not env.memory
    then (false, w')
    else (if length backlog' == 1
        then (if env.events
            then (true, record w' { backlog = backlog'; registered = true })
            else (false, record w' { backlog = backlog' }))
        else (true, record w' { backlog = backlog' }))

abbrev pub outcome_of : Bool × Writer → Outcome × Writer
outcome_of (true, w) = (queued, w)
outcome_of (false, w) = (failed, w)

pub writer_write : Env → Io → List ℕ → Writer → Outcome × Writer
writer_write env io packet w =
    if not (length w.backlog == 0)
    then outcome_of (writer_push_packet_to_backlog env packet 0 w)
    else elim io [
      | would_block ↦ outcome_of (writer_push_packet_to_backlog env packet 0 w)
      | io_error ↦ (failed, record w { disconnects = w.disconnects + 1 })
      | took n ↦
          (let w' = record w { sent = w.sent ++ take n packet } in
            if ltb n (length packet)
            then outcome_of (writer_push_packet_to_backlog env packet n w')
            else (sent_all, w'))
    ]

-- What is left registered when the writer goes away.
pub writer_destroy : Writer → Bool × List PartialPacket
writer_destroy w = (if ltb 0 (length w.backlog) then false else w.registered, [])
