-- ===== src/Socket/Closing.antt =====
-- Which handles the functions of socket.c and socket_posix.c close.
use daemonlib.Base.{
  ℕ, ◌≡◌, refl, ap, ◌∙◌, Bool, not, ◌&&◌, some, [], ◌∷◌, ◌++◌, append-nil, Bool-cases, inl, inr,
}
use daemonlib.Socket.{
  Family, SystemCall, socket, no_delay, non_blocking, reuse_address, bind, shutdown, close, accept,
  v6_only, listen, Calls, Socket, socket_create, Answers, is_ip, socket_prepare, socket_bind,
  socket_destroy_platform, closed,
}

-- `socket_create` and then `socket_open`.
abbrev pub open_socket : Family → ℕ → Socket
open_socket f h = record socket_create {
  handle = some h;
  family = f;
  read_handle = some h;
  write_handle = some h;
}

pub closed-append : (xs ys : Calls) → closed (xs ++ ys) ≡ closed xs ++ closed ys
unfolding closed
closed-append [] ys = refl
closed-append (socket f ∷ xs) ys = closed-append xs ys
closed-append (no_delay h ∷ xs) ys = closed-append xs ys
closed-append (non_blocking h ∷ xs) ys = closed-append xs ys
closed-append (reuse_address h ∷ xs) ys = closed-append xs ys
closed-append (bind h ∷ xs) ys = closed-append xs ys
closed-append (shutdown h ∷ xs) ys = closed-append xs ys
closed-append (close h ∷ xs) ys = ap (λ zs. h ∷ zs) (closed-append xs ys)
closed-append (accept h ∷ xs) ys = closed-append xs ys
closed-append (v6_only b h ∷ xs) ys = closed-append xs ys
closed-append (listen n h ∷ xs) ys = closed-append xs ys

-- A call that closes nothing.
pub kept :
    (calls : Calls) (call : SystemCall)
    → closed (call ∷ []) ≡ []
    → closed (calls ++ (call ∷ [])) ≡ closed calls
kept calls call e =
    closed-append calls (call ∷ []) ∙ (ap (λ zs. closed calls ++ zs) e ∙ append-nil (closed calls))

pub socket_destroy_platform-closed :
    (f : Family) (h : ℕ) (calls : Calls)
    → closed (socket_destroy_platform (open_socket f h) calls) ≡ closed calls ++ (h ∷ [])
unfolding closed
socket_destroy_platform-closed f h calls =
    closed-append (calls ++ (shutdown h ∷ [])) (close h ∷ [])
    ∙ ap (λ zs. zs ++ (h ∷ [])) (kept calls (shutdown h) refl)

-- Whether `socket_prepare` succeeds.
abbrev pub prepares : Family → Answers → Bool
prepares f a = not (is_ip f && not a.no_delay_set) && (a.flags_read && a.flags_set)

pub socket_prepare-prepares :
    (f : Family) (h : ℕ) (a : Answers) (calls : Calls)
    → ((socket_prepare a (open_socket f h) calls).0 ≡ prepares f a)
      × (closed (socket_prepare a (open_socket f h) calls).1 ≡ closed calls)
unfolding socket_prepare closed
socket_prepare-prepares f h a calls =
    let delayed = kept calls (no_delay h) refl in
    elim (Bool-cases (is_ip f)) [
      | inr outside ↦ elim (Bool-cases a.flags_read) [
        | inr unread ↦ rw (outside, unread) (refl, refl)
        | inl read ↦ rw (outside, read) (refl, kept calls (non_blocking h) refl)
      ]
      | inl inside ↦ elim (Bool-cases a.no_delay_set) [
        | inr unset ↦ rw (inside, unset) (refl, delayed)
        | inl set ↦ elim (Bool-cases a.flags_read) [
          | inr unread ↦ rw (inside, set, unread) (refl, delayed)
          | inl read ↦
              rw (inside, set, read)
                (refl, kept (calls ++ (no_delay h ∷ [])) (non_blocking h) refl ∙ delayed)
        ]
      ]
    ]

-- Whether `socket_bind` succeeds.
abbrev pub binds_too : Family → Answers → Bool
binds_too f a = a.bound && prepares f a

pub socket_bind-binds_too :
    (f : Family) (h : ℕ) (a : Answers) (calls : Calls)
    → ((socket_bind a (open_socket f h) calls).0 ≡ binds_too f a)
      × (closed (socket_bind a (open_socket f h) calls).1 ≡ closed calls)
unfolding socket_bind closed
socket_bind-binds_too f h a calls =
    let (ok, same) = socket_prepare-prepares f h a (calls ++ (bind h ∷ [])) in
    elim (Bool-cases a.bound) [
      | inr unbound ↦ simp unbound (refl, kept calls (bind h) refl)
      | inl there ↦ simp there (ok, same ∙ kept calls (bind h) refl)
    ]
