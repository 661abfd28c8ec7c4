-- ===== src/Socket.antt =====
-- socket.c and socket_posix.c: sockets. A function returns the system calls it has made, in order, after those
-- before; what they answer is an argument.
pub mod Server
pub mod Closing
pub mod Opening
pub mod Accept
mod Tests
use daemonlib.Base.{
  ℕ, ◌≡◌, refl, Bool, true, false, not, ◌&&◌, ◌||◌, Option, none, some, List, [], ◌∷◌, ◌++◌,
  if◌then◌else◌,
}

-- `AF_INET`, `AF_INET6`, `AF_UNSPEC` and the others.
pub data Family : Type 0 where
  ipv4 ipv6 unspecified other : Family

pub data SystemCall : Type 0 where
  socket : Family → SystemCall
  no_delay non_blocking reuse_address bind shutdown close accept : ℕ → SystemCall
  v6_only : Bool → ℕ → SystemCall
  listen : ℕ → ℕ → SystemCall

abbrev pub Calls : Type 0
Calls = List SystemCall

-- `none` is `IO_HANDLE_INVALID`. `create_allocated` is the function that creates sockets for `socket_accept`, if
-- there is one, by a number. The other function pointers are those of the platform.
pub record Socket : Type 0 where
  pub read_handle : Option ℕ
  pub write_handle : Option ℕ
  pub handle : Option ℕ
  pub family : Family
  pub create_allocated : Option ℕ

-- `socket_create`: `io_create` cannot fail.
abbrev pub socket_create : Socket
socket_create = record {
  read_handle = none;
  write_handle = none;
  handle = none;
  family = unspecified;
  create_allocated = none;
}

-- What the system calls for a socket answer: a handle, or whether they succeed.
pub record Answers : Type 0 where
  pub opened : Option ℕ
  pub v6_only_set : Bool
  pub reuse_set : Bool
  pub bound : Bool
  pub no_delay_set : Bool
  pub flags_read : Bool
  pub flags_set : Bool
  pub listening : Bool

abbrev pub is_ipv6 : Family → Bool
is_ipv6 ipv6 = true
is_ipv6 f = false

abbrev pub is_ip : Family → Bool
is_ip ipv4 = true
is_ip ipv6 = true
is_ip f = false

-- A call on the handle of a socket; the functions below are called for sockets with one.
abbrev pub on : Socket → (ℕ → SystemCall) → Calls → Calls
on s call calls = elim s.handle [ none ↦ calls | some h ↦ calls ++ (call h ∷ []) ]

abbrev pub open_as : Family → Option ℕ → Socket → Bool × Socket
open_as f none s = (false, record s { handle = none })
open_as f (some h) s =
    (true, record s { handle = some h; family = f; read_handle = some h; write_handle = some h })

unfoldable pub socket_open : Family → Option ℕ → Socket → Calls → Bool × Socket × Calls
socket_open f handle s calls =
    let (opened, s') = open_as f handle s in (opened, s', calls ++ (socket f ∷ []))

-- Reading the flags changes nothing, and is not among the calls.
unfoldable pub socket_prepare : Answers → Socket → Calls → Bool × Calls
socket_prepare a s calls =
    let calls' = if is_ip s.family then on s no_delay calls else calls in
    if is_ip s.family && not a.no_delay_set
    then (false, calls')
    else (if not a.flags_read then (false, calls') else (a.flags_set, on s non_blocking calls'))

unfoldable pub socket_bind : Answers → Socket → Calls → Bool × Calls
socket_bind a s calls =
    if not a.bound then (false, on s bind calls) else socket_prepare a s (on s bind calls)

abbrev pub socket_set_dual_stack : Bool → Answers → Socket → Calls → Bool × Calls
socket_set_dual_stack dual_stack a s calls = (a.v6_only_set, on s (v6_only (not dual_stack)) calls)

abbrev pub socket_set_address_reuse : Answers → Socket → Calls → Bool × Calls
socket_set_address_reuse a s calls = (a.reuse_set, on s reuse_address calls)

abbrev pub socket_listen : ℕ → ℕ → Answers → Socket → Calls → Bool × Socket × Calls
socket_listen backlog create_allocated a s calls = (
  a.listening,
  record s { create_allocated = some create_allocated },
  on s (listen backlog) calls,
)

-- `socket_destroy` calls it.
abbrev pub socket_destroy_platform : Socket → Calls → Calls
socket_destroy_platform s calls = on s close (on s shutdown calls)

-- The handles that are closed.
unfoldable pub closed : Calls → List ℕ
closed [] = []
closed (close h ∷ calls) = h ∷ closed calls
closed (call ∷ calls) = closed calls
