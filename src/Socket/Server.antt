-- ===== src/Socket/Server.antt =====
-- socket_open_server.
use daemonlib.Base.{ℕ, Bool, not, Option, none, some, List, [], ◌∷◌, ◌++◌, if◌then◌else◌}
use daemonlib.Socket.{
  Family, Calls, Socket, socket_create, Answers, is_ipv6, socket_open, socket_bind,
  socket_set_dual_stack, socket_set_address_reuse, socket_listen, socket_destroy_platform,
}

-- A resolved address, whether `array_append` gets a slot for its socket, and the answers for it.
pub record Resolved : Type 0 where
  pub family : Family
  pub appended : Bool
  pub answers : Answers

-- What is left of the slot that was appended: `array_remove` takes it away again.
abbrev pub failed : Socket → Calls → Option Socket × Calls
failed s calls = (none, socket_destroy_platform s calls)

-- The rest of a round, one function for each call that can fail.
abbrev pub listens : ℕ → Answers → Socket → Calls → Option Socket × Calls
listens create_allocated a s calls =
    let (ok, s', calls') = socket_listen 10 create_allocated a s calls in
    if not ok then failed s' calls' else (some s', calls')

unfoldable pub binds : ℕ → Answers → Socket → Calls → Option Socket × Calls
binds create_allocated a s calls =
    let (ok, calls') = socket_bind a s calls in
    if not ok then failed s calls' else listens create_allocated a s calls'

unfoldable pub reuses : ℕ → Answers → Socket → Calls → Option Socket × Calls
reuses create_allocated a s calls =
    let (ok, calls') = socket_set_address_reuse a s calls in
    if not ok then failed s calls' else binds create_allocated a s calls'

unfoldable pub sets_dual_stack : Bool → ℕ → Resolved → Socket → Calls → Option Socket × Calls
sets_dual_stack dual_stack create_allocated r s calls =
    if is_ipv6 r.family
    then (let (ok, calls') = socket_set_dual_stack dual_stack r.answers s calls in
        if not ok then failed s calls' else reuses create_allocated r.answers s calls')
    else reuses create_allocated r.answers s calls

-- From `socket_create` on; `socket` answers with a handle or fails.
unfoldable pub open_with : Bool → ℕ → Resolved → Option ℕ → Calls → Option Socket × Calls
open_with dual_stack create_allocated r handle calls =
    let (ok, s, calls') = socket_open r.family handle socket_create calls in
    if not ok then failed s calls' else sets_dual_stack dual_stack create_allocated r s calls'

abbrev pub open_address : Bool → ℕ → Resolved → Calls → Option Socket × Calls
open_address dual_stack create_allocated r calls =
    open_with dual_stack create_allocated r r.answers.opened calls

abbrev pub add : List Socket → Option Socket → List Socket
add sockets none = sockets
add sockets (some s) = sockets ++ (s ∷ [])

unfoldable pub socket_open_server :
    Bool → ℕ → List Resolved → List Socket → Calls → List Socket × Calls
socket_open_server dual_stack create_allocated [] sockets calls = (sockets, calls)
socket_open_server dual_stack create_allocated (r ∷ rs) sockets calls =
    let (s, calls') = open_address dual_stack create_allocated r calls in
    let rest = socket_open_server dual_stack create_allocated rs (add sockets s) calls' in
    if not r.appended then (sockets, calls) else rest
