-- ===== src/Log/Forward/Delivery.antt =====
-- log.c: log_forward hands on every message, in order.
use daemonlib.Base.{
  ℕ, ◌+◌, ◌-◌, ◌≤◌, ◌<◌, ◌≡◌, refl, sym, ap, ◌∙◌, subst, List, [], ◌∷◌, ◌++◌, append_assoc,
  append-nil, length, length-append, length-take, length-drop, take, drop, take-append-drop, min,
  ◌==◌, Bool-cases, inl, inr, arith,
}
use daemonlib.Log.Forward.{Message, buffer_size, message_size, log_message, drain_loop, log_forward}
use daemonlib.Log.Forward.Framing.{
  IsMessage, AreMessages, frames, forward_all, IsCut, Drained, log_message_small, log_message_room,
  drain_loop_lem,
}

-- Each answer of the FIFO has room for a byte.
abbrev pub ArePositive : List ℕ → Type 0
ArePositive [] = Unit {0}
ArePositive (n ∷ ns) = (0 < n) × ArePositive ns

AreMessages-tail :
    (e : ℕ) (gone left : List Message) → AreMessages e (gone ++ left) → AreMessages e left
AreMessages-tail e [] left are = are
AreMessages-tail e (m ∷ gone) left (is, are) = AreMessages-tail e gone left are

forward_all-append :
    {S : Type 0} (f : Message → S → S) (gone more : List Message) (s : S)
    → forward_all f (gone ++ more) s ≡ forward_all f more (forward_all f gone s)
forward_all-append f [] more s = refl
forward_all-append f (m ∷ gone) more s = forward_all-append f gone more (f m s)

length-log_message :
    (e : ℕ) (m : Message) → IsMessage e m → length (log_message m) ≤ e + message_size
length-log_message e (entry, text) (size, clean, small) = rw (log_message_small entry text small) (
    omega (arith, length-append entry (text ++ (0 ∷ [])), length-append text (0 ∷ []), size, small))

-- A buffer that waits for the rest of a message has room.
cut_room :
    (e : ℕ) (ms : List Message) (buffer : List ℕ)
    → AreMessages e ms
    → e + message_size ≤ buffer_size
    → IsCut ms buffer
    → length buffer < buffer_size
cut_room e [] buffer are fits cut = omega (arith, cut)
cut_room e (m ∷ ms) buffer (is, are) fits cut = omega (arith, cut, length-log_message e m is, fits)

start : (ms : List Message) → IsCut ms []
start [] = refl
start (m ∷ ms) = log_message_room m

nil_of_length : (l : List ℕ) → length l ≤ 0 → l ≡ []
nil_of_length [] h = refl
nil_of_length (x ∷ l) h = absurd (omega arith)

none_left :
    (left : List Message) (buffer : List ℕ)
    → IsCut left buffer
    → buffer ≡ frames left
    → (left ≡ []) × (buffer ≡ [])
none_left [] buffer cut e = (refl, e)
none_left (m ∷ left) buffer cut e =
    absurd (omega (arith, cut, ap length e, length-append (log_message m) (frames left)))

module _ {S : Type 0} (f : Message → S → S) (e : ℕ) (fits : e + message_size ≤ buffer_size) where
  Drained-then :
      (ms : List Message) (stream stream' : List ℕ) (s : S) (r r' : S × List ℕ)
      → (d : Drained f ms stream s r) → Drained f d.left stream' r.0 r'
      → Drained f ms stream' s r'
  Drained-then ms stream stream' s r r' d d' = record {
    gone = d.gone ++ d'.gone;
    left = d'.left;
    all = d.all ∙ ap (λ l. d.gone ++ l) d'.all ∙ sym (append_assoc d.gone d'.gone d'.left);
    state =
        d'.state ∙ ap (forward_all f d'.gone) d.state ∙ sym (forward_all-append f d.gone d'.gone s);
    bytes = d'.bytes;
    cut = d'.cut;
  }

  abbrev Forwarded : List Message → List ℕ → ℕ → S → List ℕ × List ℕ × S → Type 0
  Forwarded ms stream n s (stream', buffer', s') =
      Drained f ms stream' s (s', buffer') × (length stream' ≤ length stream - n)

  log_forward_drains :
      (ns : List ℕ) (ms : List Message) (stream buffer : List ℕ) (s : S)
      → ArePositive ns
      → AreMessages e ms
      → buffer ++ stream ≡ frames ms
      → IsCut ms buffer
      → Forwarded ms stream (length ns) s (log_forward f e ns stream buffer s)
  unfolding log_forward
  log_forward_drains [] ms stream buffer s pos are bytes cut = (
    record { gone = []; left = ms; all = refl; state = refl; bytes = bytes; cut = cut },
    omega arith,
  )
  log_forward_drains (n ∷ ns) ms stream buffer s (pos, poss) are bytes cut =
      let asked = min n (buffer_size - length buffer) in
      let chunk = take asked stream in
      let room = cut_room e ms buffer are fits cut in
      elim (Bool-cases (length chunk == 0)) [
        | inl ended ↦ rw ended (
          record { gone = []; left = ms; all = refl; state = refl; bytes = bytes; cut = cut },
          ground (arith, ended, length-take asked stream, room, pos),
        )
        | inr given ↦
            let whole : (buffer ++ chunk) ++ drop asked stream ≡ frames ms =
              append_assoc buffer chunk (drop asked stream)
              ∙ ap (λ l. buffer ++ l) (take-append-drop asked stream)
              ∙ bytes in
            let d =
              drain_loop_lem f e ms (length (buffer ++ chunk)) (buffer ++ chunk) (drop asked stream)
                s are whole (omega arith) in
            let (s', buffer') = drain_loop f e (length (buffer ++ chunk)) (buffer ++ chunk) s in
            let (d', less) =
              log_forward_drains ns d.left (drop asked stream) buffer' s' poss
                (AreMessages-tail e d.gone d.left (subst (AreMessages e) d.all are)) d.bytes
                d.cut in
            rw given (
              Drained-then ms (drop asked stream) _ s _ _ d d',
              ground (arith, less, given, length-take asked stream, length-drop asked stream),
            )
      ]

  finished :
      (ms : List Message) (s : S) (r : List ℕ × List ℕ × S)
      → Drained f ms r.0 s (r.2, r.1)
      → length r.0 ≤ 0
      → r ≡ ([], [], forward_all f ms s)
  finished ms s (stream, buffer, s') d ended =
      let a = nil_of_length stream ended in
      let b : buffer ≡ frames d.left =
        sym (append-nil buffer) ∙ ap (λ l. buffer ++ l) (sym a) ∙ d.bytes in
      let (c, empty) = none_left d.left buffer d.cut b in
      let all : d.gone ≡ ms = sym (append-nil d.gone) ∙ ap (λ l. d.gone ++ l) (sym c) ∙ sym d.all in
      rw (a, empty, d.state, all) refl

  -- Messages without NUL that fit their buffers are handed on complete, each once and in their order,
  -- however the FIFO cuts their bytes: when it has answered as often as there are bytes, nothing is
  -- left in it or in the buffer.
  pub log_forward_lem :
      (ns : List ℕ) (ms : List Message) (s : S)
      → ArePositive ns
      → AreMessages e ms
      → length (frames ms) ≤ length ns
      → log_forward f e ns (frames ms) [] s ≡ ([], [], forward_all f ms s)
  log_forward_lem ns ms s pos are enough =
      let (d, less) = log_forward_drains ns ms (frames ms) [] s pos are refl (start ms) in
      finished ms s (log_forward f e ns (frames ms) [] s) d (omega (arith, less, enough))
