-- ===== src/Socket/Accept.antt =====
-- socket_accept of socket.c and socket_accept_platform of socket_posix.c.
use daemonlib.Base.{
  ℕ, ◌≡◌, refl, sym, ap, ◌∙◌, Bool, true, false, not, Option, none, some, List, [], ◌∷◌, ◌++◌,
  append-nil, if◌then◌else◌, subst,
}
use daemonlib.Socket.{
  Family, SystemCall, close, accept, Calls, Socket, socket_create, Answers, on, socket_prepare,
  closed,
}
use daemonlib.Socket.Closing.{open_socket, kept, closed-append, prepares, socket_prepare-prepares}

-- `accept` answers with a handle or fails; `family` is that of the address it fills in. `robust_close` closes
-- what cannot be prepared.
abbrev pub socket_accept_platform :
    Option ℕ → Family → Answers → Socket → Socket → Calls → Option Socket × Calls
socket_accept_platform none family a s accepted calls = (none, on s accept calls)
socket_accept_platform (some h) family a s accepted calls =
    let accepted' = record accepted {
      handle = some h;
      family = family;
      read_handle = some h;
      write_handle = some h;
    } in
    let (ok, calls') = socket_prepare a accepted' (on s accept calls) in
    if not ok then (none, on accepted' close calls') else (some accepted', calls')

-- The Boolean tells whether `create_allocated` succeeds, which is `socket_create_allocated` or one like it; on
-- failure the memory is freed.
unfoldable pub socket_accept :
    Bool → Option ℕ → Family → Answers → Socket → Calls → Option Socket × Calls
socket_accept allocated handle family a s calls =
    if not allocated
    then (none, calls)
    else socket_accept_platform handle family a s socket_create calls

-- The handle that `accept` answers with, if it is called.
abbrev pub taken : Bool → Option ℕ → Option ℕ
taken allocated handle = if allocated then handle else none

abbrev pub accepted_socket : Bool → Family → Option ℕ → Option Socket
accepted_socket good family none = none
accepted_socket good family (some h) = if good then some (open_socket family h) else none

abbrev pub dropped : Bool → Option ℕ → List ℕ
dropped good none = []
dropped good (some h) = if good then [] else h ∷ []

on_server :
    (s : Socket) (h : ℕ) (call : ℕ → SystemCall) (calls : Calls)
    → s.handle ≡ some h
    → on s call calls ≡ calls ++ (call h ∷ [])
on_server s h call calls here = rw here refl

prepared_or_closed :
    (family : Family) (h : ℕ) (calls calls' : Calls) (ok : Bool)
    → closed calls' ≡ closed calls
    → let result : Option Socket × Calls =
        if not ok
        then (none, calls' ++ (close h ∷ []))
        else (some (open_socket family h), calls') in
      (result.0 ≡ (if ok then some (open_socket family h) else none))
      × (closed result.1 ≡ closed calls ++ (if ok then [] else h ∷ []))
unfolding closed
prepared_or_closed family h calls calls' true same = (refl, same ∙ sym (append-nil (closed calls)))
prepared_or_closed family h calls calls' false same =
    (refl, closed-append calls' (close h ∷ []) ∙ ap (λ zs. zs ++ (h ∷ [])) same)

-- socket_accept returns an open socket exactly if one can be allocated, a connection is accepted and its handle
-- can be prepared; it closes the handle of an accepted connection exactly if that cannot be prepared.
pub socket_accept_lem :
    (allocated : Bool) (handle : Option ℕ) (family : Family) (a : Answers) (server : ℕ) (s : Socket)
    (calls : Calls)
    → s.handle ≡ some server
    → let result = socket_accept allocated handle family a s calls in
      (result.0 ≡ accepted_socket (prepares family a) family (taken allocated handle))
      × (closed result.1 ≡ closed calls ++ dropped (prepares family a) (taken allocated handle))
unfolding socket_accept closed
socket_accept_lem false handle family a server s calls here =
    (refl, sym (append-nil (closed calls)))
socket_accept_lem true none family a server s calls here = (
  refl,
  ap closed (on_server s server accept calls here)
      ∙ kept calls (accept server) refl
      ∙ sym (append-nil (closed calls)),
)
socket_accept_lem true (some h) family a server s calls here =
    let asked = on s accept calls in
    let (ok, same) = socket_prepare-prepares family h a asked in
    let same' =
      same ∙ (ap closed (on_server s server accept calls here) ∙ kept calls (accept server) refl) in
    let result = socket_prepare a (open_socket family h) asked in
    subst
      (λ b.
        ((socket_accept true (some h) family a s calls).0
          ≡ (if b then some (open_socket family h) else none))
        × (closed (socket_accept true (some h) family a s calls).1
            ≡ closed calls ++ (if b then [] else h ∷ [])))
      ok (prepared_or_closed family h calls result.1 result.0 same')
