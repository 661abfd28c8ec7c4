-- ===== src/Log/Forward.antt =====
-- log.c: log_message and log_forward. A message is the bytes of its `LogEntry` and its text. What is
-- done with a message that has arrived, `log_output` and the rotation, is a function on a state.
pub mod Framing
pub mod Delivery
use daemonlib.Base.{
  ℕ, zero, suc, ◌+◌, ◌-◌, Bool, List, [], ◌∷◌, ◌++◌, length, take, drop, min, ltb, leb, ◌==◌,
  if◌then◌else◌,
}

abbrev pub Message : Type 0
Message = List ℕ × List ℕ

-- The size of the buffer in log_forward.
abbrev pub buffer_size : ℕ
buffer_size = 8192

-- The size of `message` in log_message.
abbrev pub message_size : ℕ
message_size = 1024

-- The bytes that log_message writes to the FIFO: the entry, the text cut to the size of `message`,
-- and the NUL.
unfoldable pub log_message : Message → List ℕ
log_message (entry, text) = entry ++ (take (message_size - 1) text ++ (0 ∷ []))

-- `strnlen` on bytes that end where its limit is.
pub strnlen : List ℕ → ℕ
strnlen [] = 0
strnlen (c ∷ cs) = if c == 0 then 0 else suc (strnlen cs)

module _ {S : Type 0} (forward : Message → S → S) (entry_size : ℕ) where
  -- The inner loop, on the `buffer_used` bytes of the buffer: the state and the bytes that are left.
  pub drain_loop : ℕ → List ℕ → S → S × List ℕ
  drain_loop zero buffer s = (s, buffer)
  drain_loop (suc fuel) buffer s =
      let body = drop entry_size buffer in
      let message_length = strnlen body in
      let rest =
        drain_loop fuel (drop (entry_size + message_length + 1) buffer)
          (forward (take entry_size buffer, take message_length body) s) in
      if length buffer == 0
      then (s, buffer)
      else (if ltb (length buffer) entry_size
          then (s, buffer)
          else (if leb (length buffer - entry_size) message_length then (s, buffer) else rest))

  -- The outer loop. The FIFO gives the bytes of `stream`, in its n-th answer at most `ns[n]` of them;
  -- no bytes end the loop, and so does an empty request. The rest of the stream, the bytes in the buffer
  -- and the state.
  pub log_forward : List ℕ → List ℕ → List ℕ → S → List ℕ × List ℕ × S
  log_forward [] stream buffer s = (stream, buffer, s)
  log_forward (n ∷ ns) stream buffer s =
      let asked = min n (buffer_size - length buffer) in
      let chunk = take asked stream in
      let (s', buffer') = drain_loop (length (buffer ++ chunk)) (buffer ++ chunk) s in
      let rest = log_forward ns (drop asked stream) buffer' s' in
      if length chunk == 0 then (stream, buffer, s) else rest
