-- ===== src/Fifo/Spec.antt =====
-- What fifo.c promises: a queue of at most `capacity` bytes that can be shut down.
use daemonlib.Base.{
  ℕ, ◌+◌, ◌-◌, Bool, not, ◌&&◌, List, [], ◌++◌, ltb, leb, ◌==◌, if◌then◌else◌, length, take, drop,
}
use daemonlib.Base.Int.{ℤ, pos, pos_part, int_leb}
use daemonlib.Fifo.{
  epipe, e2big, ewouldblock, WriteResult, wrote, write_failed, write_waits, ReadResult, read,
  read_failed, read_waits,
}

-- What a writer with `src` still to write does to the queue: all of it at once, or as much as fits
-- before it waits. `n` bytes are written already.
abbrev pub push : ℕ → List ℕ → ℕ → List ℕ → WriteResult × List ℕ
push capacity queue n src =
    let room = capacity - length queue in
    if leb (length src) room
    then (wrote (n + length src), queue ++ src)
    else (write_waits (n + room), queue ++ take room src)

-- A first try to write `src`, where the caller asked for `len` bytes.
abbrev pub write : ℕ → Bool → List ℕ → List ℕ → ℤ → Bool → WriteResult × List ℕ
write capacity shutdown queue src len blocking =
    if shutdown
    then (write_failed epipe, queue)
    else (if int_leb len (pos 0)
        then (wrote 0, queue)
        else (if blocking
            then push capacity queue 0 src
            else (if ltb capacity (length src)
                then (write_failed e2big, queue)
                else (if ltb capacity (length queue + length src)
                    then (write_failed ewouldblock, queue)
                    else (wrote (length src), queue ++ src)))))

-- A woken writer.
abbrev pub write_again : ℕ → Bool → List ℕ → ℕ → List ℕ → WriteResult × List ℕ
write_again capacity shutdown queue n src =
    if shutdown then (write_failed epipe, queue) else push capacity queue n src

-- A first try to read up to `len` bytes.
abbrev pub read_up_to : Bool → List ℕ → ℤ → Bool → ReadResult × List ℕ
read_up_to shutdown queue len blocking =
    if int_leb len (pos 0)
    then (read [], queue)
    else (if length queue == 0 && not shutdown
        then ((if blocking then read_waits else read_failed ewouldblock), queue)
        else (read (take (pos_part len) queue), drop (pos_part len) queue))

-- A woken reader. After a shutdown it takes what is left, which may be nothing.
abbrev pub read_again : Bool → List ℕ → ℕ → ReadResult × List ℕ
read_again shutdown queue len =
    if length queue == 0 && not shutdown
    then (read_waits, queue)
    else (read (take len queue), drop len queue)
