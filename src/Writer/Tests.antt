-- ===== src/Writer/Tests.antt =====
-- writer.c: a writer with a half-sent packet, and the theorems at it.
use daemonlib.Base.{
  ◌≡◌, refl, true, List, [], ◌∷◌, ◌++◌, length, replicate, length-replicate, arith,
}
use daemonlib.Writer.{
  PartialPacket, Writer, took, would_block, Env, max_queued_writes, writer_handle_write,
  writer_write,
}
use daemonlib.Writer.Bytes.{stream}
use daemonlib.Writer.Stream.{writer_handle_write-stream}
use daemonlib.Writer.Backlog.{writer_write_cuts}

abbrev half_sent : PartialPacket
half_sent = record { packet = 1 ∷ 2 ∷ 3 ∷ 4 ∷ []; written = 2 }

abbrev with_backlog : List PartialPacket → Writer
with_backlog ps = record {
  backlog = ps;
  dropped_packets = 0;
  last_dropped_packets_warning = 0;
  registered = true;
  sent = 1 ∷ 2 ∷ [];
  disconnects = 0;
}

abbrev waiting : Writer
waiting = with_backlog (half_sent ∷ [])

abbrev fine : Env
fine = record { now = 9; memory = true; events = true }

writer_handle_write-stream_example : stream (writer_handle_write (took 1) waiting) ≡ stream waiting
writer_handle_write-stream_example = writer_handle_write-stream (took 1) waiting

abbrev other : PartialPacket
other = record { packet = 5 ∷ []; written = 0 }

abbrev others : List PartialPacket
others = replicate 32767 other

full : length (half_sent ∷ others) ≡ max_queued_writes
full = omega (arith, length-replicate 32767 other)

writer_write_cuts_example :
    let w' = (writer_write fine would_block (6 ∷ []) (with_backlog (half_sent ∷ others))).1 in
    (w'.sent ≡ 1 ∷ 2 ∷ []) × (w'.backlog ≡ others ++ (record { packet = 6 ∷ []; written = 0 } ∷ []))
writer_write_cuts_example =
    writer_write_cuts fine would_block (6 ∷ []) (with_backlog (half_sent ∷ others)) half_sent others
      refl full refl
