-- ===== src/Writer/Stream.antt =====
-- writer.c: what the recipient gets is the packets one after the other.
use daemonlib.Base.{
  ◌⊎◌, inl, inr, Bool-cases, ◌+◌, ◌-◌, ◌≡◌, refl, sym, ap, ◌∙◌, false, List, [], ◌∷◌, ◌++◌,
  append_assoc, take, drop, length, ◌==◌, arith,
}
use daemonlib.Writer.{PartialPacket, Writer, Io, took, would_block, io_error, writer_handle_write}
use daemonlib.Writer.Bytes.{pending, stream, drop_more, finish_first-stream}

handle_io :
    (io : Io) (w : Writer) (p : PartialPacket) (ps : List PartialPacket)
    → w.backlog ≡ p ∷ ps
    → (length p.packet - p.written == 0) ≡ false
    → stream (writer_handle_write io w) ≡ stream w
unfolding writer_handle_write
handle_io (took n) w p ps e more =
    let r = drop p.written p.packet in
    rw (writer_handle_write, e, more)
      (finish_first-stream (record p { written = p.written + n }) ps
          (record w { sent = w.sent ++ take n r })
        ∙ append_assoc w.sent (take n r) (drop (p.written + n) p.packet ++ pending ps)
        ∙ ap (λ l. w.sent ++ l)
            (sym (append_assoc (take n r) (drop (p.written + n) p.packet) (pending ps))
              ∙ ap (λ l. l ++ pending ps) (drop_more p.written n p.packet)))
handle_io would_block w p ps e more =
    rw (writer_handle_write, e, more) (ap (λ l. w.sent ++ pending l) e)
handle_io io_error w p ps e more =
    rw (writer_handle_write, e, more) (ap (λ l. w.sent ++ pending l) e)

handle-cons :
    (io : Io) (w : Writer) (p : PartialPacket) (ps : List PartialPacket)
    → w.backlog ≡ p ∷ ps
    → stream (writer_handle_write io w) ≡ stream w
unfolding writer_handle_write
handle-cons io w p ps e = elim (Bool-cases (length p.packet - p.written == 0)) [
  | inl done ↦ rw (writer_handle_write, e, done) (finish_first-stream p ps w)
  | inr more ↦ handle_io io w p ps e more
]

handle-nil : (io : Io) (w : Writer) → w.backlog ≡ [] → stream (writer_handle_write io w) ≡ stream w
unfolding writer_handle_write
handle-nil io w e = ground (arith, e)

pub backlog-cases :
    (ps : List PartialPacket)
    → (ps ≡ []) ⊎ ((p : PartialPacket) × (qs : List PartialPacket) × (ps ≡ p ∷ qs))
backlog-cases [] = inl refl
backlog-cases (p ∷ qs) = inr (p, qs, refl)

-- `writer_handle_write` moves bytes from the backlog to the recipient in order, and loses and repeats
-- none, whether `io_write` takes all, some or none of them.
pub writer_handle_write-stream :
    (io : Io) (w : Writer) → stream (writer_handle_write io w) ≡ stream w
writer_handle_write-stream io w = elim (backlog-cases w.backlog) [
  | inl e ↦ handle-nil io w e
  | inr (p, ps, e) ↦ handle-cons io w p ps e
]
