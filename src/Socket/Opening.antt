-- ===== src/Socket/Opening.antt =====
-- What socket_open_server opens and closes: socket.c and socket_posix.c.
use daemonlib.Base.{
  ℕ, ◌≡◌, refl, sym, ap, ◌∙◌, Bool, true, false, not, ◌&&◌, ◌||◌, Option, none, some, List, [], ◌∷◌,
  ◌++◌, append_assoc, append-nil, if◌then◌else◌, Bool-cases, inl, inr, subst,
}
use daemonlib.Socket.{
  Family, socket, reuse_address, v6_only, listen, Calls, Socket, Answers, is_ipv6, socket_open,
  socket_bind, closed,
}
use daemonlib.Socket.Closing.{
  open_socket, kept, socket_destroy_platform-closed, binds_too, socket_bind-binds_too,
}
use daemonlib.Socket.Server.{
  Resolved, failed, listens, binds, reuses, sets_dual_stack, open_with, add, socket_open_server,
}

-- A socket that listens.
abbrev pub listener : ℕ → Family → ℕ → Socket
listener create_allocated f h = record (open_socket f h) {
  create_allocated = some create_allocated;
}

-- What became of a socket with handle `h`: it is returned, or its handle is closed and nothing else is.
record IsOutcome (good : Bool) (s : Socket) (h : ℕ) (calls : Calls) (result : Option Socket × Calls)
    : Type 0 where
  returned : result.0 ≡ (if good then some s else none)
  closes : closed result.1 ≡ closed calls ++ (if good then [] else h ∷ [])

failed-IsOutcome :
    (s : Socket) (f : Family) (h : ℕ) (calls calls' : Calls)
    → closed calls' ≡ closed calls
    → IsOutcome false s h calls (failed (open_socket f h) calls')
failed-IsOutcome s f h calls calls' same = record {
  returned = refl;
  closes = socket_destroy_platform-closed f h calls' ∙ ap (λ zs. zs ++ (h ∷ [])) same;
}

earlier :
    {good : Bool} {s : Socket} {h : ℕ} {calls calls' : Calls} {result : Option Socket × Calls}
    → closed calls' ≡ closed calls
    → IsOutcome good s h calls' result
    → IsOutcome good s h calls result
earlier {good} {s} {h} same o = record {
  returned = o.returned;
  closes = o.closes ∙ ap (λ zs. zs ++ (if good then [] else h ∷ [])) same;
}

guarded :
    {good : Bool} {s : Socket} {h : ℕ} {calls : Calls} {bad fine : Option Socket × Calls} (b : Bool)
    → IsOutcome false s h calls bad
    → IsOutcome good s h calls fine
    → IsOutcome (b && good) s h calls (if not b then bad else fine)
guarded true wrong right = right
guarded false wrong right = wrong

success :
    (s : Socket) (h : ℕ) (calls calls' : Calls)
    → closed calls' ≡ closed calls
    → IsOutcome true s h calls (some s, calls')
success s h calls calls' same = record {
  returned = refl;
  closes = same ∙ sym (append-nil (closed calls));
}

guarded_last :
    {s : Socket} {h : ℕ} {calls : Calls} {bad fine : Option Socket × Calls} (b : Bool)
    → IsOutcome false s h calls bad
    → IsOutcome true s h calls fine
    → IsOutcome b s h calls (if not b then bad else fine)
guarded_last true wrong right = right
guarded_last false wrong right = wrong

listens-IsOutcome :
    (c : ℕ) (a : Answers) (f : Family) (h : ℕ) (calls : Calls)
    → IsOutcome a.listening (listener c f h) h calls (listens c a (open_socket f h) calls)
unfolding closed
listens-IsOutcome c a f h calls =
    let same = kept calls (listen 10 h) refl in
    guarded_last a.listening
      (failed-IsOutcome (listener c f h) f h calls (calls ++ (listen 10 h ∷ [])) same)
      (success (listener c f h) h calls (calls ++ (listen 10 h ∷ [])) same)

binds-IsOutcome :
    (c : ℕ) (a : Answers) (f : Family) (h : ℕ) (calls : Calls)
    → IsOutcome
        (binds_too f a && a.listening)
        (listener c f h)
        h
        calls
        (binds c a (open_socket f h) calls)
unfolding binds
binds-IsOutcome c a f h calls =
    let (ok, same) = socket_bind-binds_too f h a calls in
    let calls' = (socket_bind a (open_socket f h) calls).1 in
    subst
      (λ b.
        IsOutcome (b && a.listening) (listener c f h) h calls (binds c a (open_socket f h) calls))
      ok
      (guarded (socket_bind a (open_socket f h) calls).0
        (failed-IsOutcome (listener c f h) f h calls calls' same)
        (earlier same (listens-IsOutcome c a f h calls')))

reuses-IsOutcome :
    (c : ℕ) (a : Answers) (f : Family) (h : ℕ) (calls : Calls)
    → IsOutcome
        (a.reuse_set && (binds_too f a && a.listening))
        (listener c f h)
        h
        calls
        (reuses c a (open_socket f h) calls)
unfolding reuses closed
reuses-IsOutcome c a f h calls =
    let calls' = calls ++ (reuse_address h ∷ []) in
    let same = kept calls (reuse_address h) refl in
    guarded a.reuse_set (failed-IsOutcome (listener c f h) f h calls calls' same)
      (earlier same (binds-IsOutcome c a f h calls'))

-- Whether all calls for an address with a handle succeed.
abbrev pub succeeds : Family → Answers → Bool
succeeds f a = (not (is_ipv6 f) || a.v6_only_set) && (a.reuse_set && (binds_too f a && a.listening))

sets_dual_stack-IsOutcome :
    (dual_stack : Bool) (c : ℕ) (r : Resolved) (h : ℕ) (calls : Calls)
    → IsOutcome
        (succeeds r.family r.answers)
        (listener c r.family h)
        h
        calls
        (sets_dual_stack dual_stack c r (open_socket r.family h) calls)
unfolding sets_dual_stack closed
sets_dual_stack-IsOutcome dual_stack c r h calls =
    let calls' = calls ++ (v6_only (not dual_stack) h ∷ []) in
    let same = kept calls (v6_only (not dual_stack) h) refl in
    elim (Bool-cases (is_ipv6 r.family)) [
      | inr not6 ↦ simp not6 (reuses-IsOutcome c r.answers r.family h calls)
      | inl is6 ↦ simp is6 (
          guarded r.answers.v6_only_set
            (failed-IsOutcome (listener c r.family h) r.family h calls calls' same)
            (earlier same (reuses-IsOutcome c r.answers r.family h calls')))
    ]

-- The socket for an address if it listens in the end, and the handle if it is closed instead.
abbrev pub listener_of : ℕ → Resolved → Option ℕ → List Socket
listener_of c r none = []
listener_of c r (some h) = if succeeds r.family r.answers then listener c r.family h ∷ [] else []

abbrev pub closed_of : Resolved → Option ℕ → List ℕ
closed_of r none = []
closed_of r (some h) = if succeeds r.family r.answers then [] else h ∷ []

-- The same for all addresses before one for which the array cannot grow.
unfoldable pub listeners : ℕ → List Resolved → List Socket
listeners c [] = []
listeners c (r ∷ rs) =
    let rest = listeners c rs in
    if not r.appended then [] else listener_of c r r.answers.opened ++ rest

unfoldable pub unused : List Resolved → List ℕ
unused [] = []
unused (r ∷ rs) =
    let rest = unused rs in if not r.appended then [] else closed_of r r.answers.opened ++ rest

add_if :
    (sockets : List Socket) (b : Bool) (s : Socket)
    → add sockets (if b then some s else none) ≡ sockets ++ (if b then s ∷ [] else [])
add_if sockets true s = refl
add_if sockets false s = sym (append-nil sockets)

open_with_lem :
    (dual_stack : Bool) (c : ℕ) (r : Resolved) (handle : Option ℕ) (sockets : List Socket)
    (calls : Calls)
    → let result = open_with dual_stack c r handle calls in
      (add sockets result.0 ≡ sockets ++ listener_of c r handle)
      × (closed result.1 ≡ closed calls ++ closed_of r handle)
unfolding open_with socket_open closed
open_with_lem dual_stack c r none sockets calls =
    (sym (append-nil sockets), kept calls (socket r.family) refl ∙ sym (append-nil (closed calls)))
open_with_lem dual_stack c r (some h) sockets calls =
    let calls' = calls ++ (socket r.family ∷ []) in
    let o = sets_dual_stack-IsOutcome dual_stack c r h calls' in
    let good = succeeds r.family r.answers in
    (
      ap (add sockets) o.returned ∙ add_if sockets good (listener c r.family h),
      o.closes ∙ ap (λ zs. zs ++ (if good then [] else h ∷ [])) (kept calls (socket r.family) refl),
    )

-- socket_open_server adds to the array, in order, one socket for each resolved address for which every call
-- succeeds, which listens and is set up for socket_accept, up to an address for which the array cannot grow.
-- Of the handles that it opens it closes, once each, exactly those of the other addresses.
pub socket_open_server_lem :
    (dual_stack : Bool) (c : ℕ) (rs : List Resolved) (sockets : List Socket) (calls : Calls)
    → let result = socket_open_server dual_stack c rs sockets calls in
      (result.0 ≡ sockets ++ listeners c rs) × (closed result.1 ≡ closed calls ++ unused rs)
unfolding socket_open_server listeners unused
socket_open_server_lem dual_stack c [] sockets calls =
    (sym (append-nil sockets), sym (append-nil (closed calls)))
socket_open_server_lem dual_stack c (r ∷ rs) sockets calls = elim (Bool-cases r.appended) [
  | inr full ↦ simp full (sym (append-nil sockets), sym (append-nil (closed calls)))
  | inl appended ↦
      let handle = r.answers.opened in
      let (added, closes) = open_with_lem dual_stack c r handle sockets calls in
      let result = open_with dual_stack c r handle calls in
      let (a, b) = socket_open_server_lem dual_stack c rs (add sockets result.0) result.1 in
      simp appended (
        a
            ∙ (ap (λ zs. zs ++ listeners c rs) added
                ∙ append_assoc sockets (listener_of c r handle) (listeners c rs)),
        b
            ∙ (ap (λ zs. zs ++ unused rs) closes
                ∙ append_assoc (closed calls) (closed_of r handle) (unused rs)),
      )
]
