-- ===== src/Socket/Tests.antt =====
-- Sockets of socket.c at work.
use daemonlib.Base.{ℕ, ◌≡◌, refl, true, false, some, List, [], ◌∷◌, ◌++◌}
use daemonlib.Socket.{ipv4, ipv6, Calls, Socket, Answers, closed}
use daemonlib.Socket.Closing.{open_socket, prepares}
use daemonlib.Socket.Server.{Resolved, socket_open_server}
use daemonlib.Socket.Opening.{listener, listeners, unused, socket_open_server_lem}
use daemonlib.Socket.Accept.{socket_accept, taken, accepted_socket, dropped, socket_accept_lem}

abbrev fine : ℕ → Answers
fine h = record {
  opened = some h;
  v6_only_set = true;
  reuse_set = true;
  bound = true;
  no_delay_set = true;
  flags_read = true;
  flags_set = true;
  listening = true;
}

-- The second address is in use.
abbrev addresses : List Resolved
addresses =
    record { family = ipv4; appended = true; answers = fine 5 }
    ∷ record { family = ipv6; appended = true; answers = record (fine 6) { bound = false } }
    ∷ record { family = ipv6; appended = true; answers = fine 7 }
    ∷ []

abbrev no_calls : Calls
no_calls = []

abbrev no_sockets : List Socket
no_sockets = []

listeners_run : listeners 1 addresses ≡ listener 1 ipv4 5 ∷ listener 1 ipv6 7 ∷ []
unfolding listeners
listeners_run = refl

unused_run : unused addresses ≡ 6 ∷ []
unfolding unused
unused_run = refl

socket_open_server_lem_example :
    let result = socket_open_server true 1 addresses no_sockets no_calls in
    (result.0 ≡ no_sockets ++ listeners 1 addresses)
    × (closed result.1 ≡ closed no_calls ++ unused addresses)
socket_open_server_lem_example = socket_open_server_lem true 1 addresses no_sockets no_calls

socket_accept_lem_example :
    let result = socket_accept true (some 8) ipv4 (fine 8) (open_socket ipv4 5) no_calls in
    (result.0 ≡ accepted_socket (prepares ipv4 (fine 8)) ipv4 (taken true (some 8)))
    × (closed result.1 ≡ closed no_calls ++ dropped (prepares ipv4 (fine 8)) (taken true (some 8)))
socket_accept_lem_example =
    socket_accept_lem true (some 8) ipv4 (fine 8) 5 (open_socket ipv4 5) no_calls refl
