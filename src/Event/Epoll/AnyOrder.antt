-- ===== src/Event/Epoll/AnyOrder.antt =====
-- event_linux.c: the loop over the received events, in whatever order the kernel reports them.
use mathlib.Core.Logic.Or
use mathlib.Core.List.{
  Mem, mem-cons_self, mem-cons_of_mem, eq-or-mem_of_mem-cons, not-mem-nil, Perm,
}
use mathlib.Core.List.Perm
use native.Mathlib.Bridge.{le_prop}
use daemonlib.Base.{
  ℕ, zero, suc, ◌+◌, ◌≤◌, ◌<◌, ◌≡◌, refl, sym, ap, ◌∙◌, subst, Bool, false, Option, List, [], ◌∷◌,
  ◌++◌, append_assoc, append-nil, map, length, get_elem?, ◌==◌, Bool-cases, inl, inr, arith,
}
use daemonlib.Event.{Callback, Sources}
use daemonlib.Event.Handle.{event_handle_source}
use daemonlib.Event.Handle.Calls.{event_handle_source-Keeps}
use daemonlib.Event.Keeps.{Keeps, handles}
use daemonlib.Event.Poll.{handle_at, handle_loop}
use daemonlib.Event.Poll.Order.{running_with, none_stops, length-handles}
use daemonlib.Event.Epoll.{handle_events}
use daemonlib.Event.Epoll.Agreement.{reported, handle_loop-handle_events}

-- A received event with the handle of its source.
abbrev pub named : List ℕ → ℕ × ℕ → Option ℕ × ℕ
named hs (i, events) = (get_elem? hs i, events)

-- The places are those of sources that there are.
AreWithin : ℕ → List (ℕ × ℕ) → Type 0
AreWithin n rs = (r : ℕ × ℕ) → Mem r rs → r.0 < n

handle_at-handles : (i : ℕ) (ss : Sources) → handle_at i ss ≡ get_elem? (handles ss) i
handle_at-handles i [] = refl
handle_at-handles zero (s ∷ ss) = refl
handle_at-handles (suc i) (s ∷ ss) = handle_at-handles i ss

get_elem?-append :
    (xs ys : List ℕ) (i : ℕ) → i < length xs → get_elem? (xs ++ ys) i ≡ get_elem? xs i
get_elem?-append [] ys i e = ground (arith, e)
get_elem?-append (x ∷ xs) ys zero e = refl
get_elem?-append (x ∷ xs) ys (suc i) e = get_elem?-append xs ys i (omega (arith, e))

reported-AreWithin : (rs : List ℕ) (i n : ℕ) → i + length rs ≤ n → AreWithin n (reported i rs)
unfolding AreWithin
reported-AreWithin [] i n le r m = absurd (not-mem-nil m)
reported-AreWithin (events ∷ rs) i n le r m =
    let later = reported-AreWithin rs (i + 1) n (omega (arith, le)) r in
    elim (Bool-cases (events == 0)) [
      | inl quiet ↦
          let same : reported i (events ∷ rs) ≡ reported (i + 1) rs = rw quiet refl in
          later (subst (Mem r) same m)
      | inr busy ↦
          let same : reported i (events ∷ rs) ≡ (i, events) ∷ reported (i + 1) rs = rw busy refl in
          Or.elim le_prop (eq-or-mem_of_mem-cons (subst (Mem r) same m))
            (λ e. let at : r.0 ≡ i = ap (λ p. p.0) e in omega (arith, at, le)) later
    ]

perm-AreWithin : (n : ℕ) (rs rs' : List (ℕ × ℕ)) → Perm rs rs' → AreWithin n rs' → AreWithin n rs
unfolding AreWithin
perm-AreWithin n rs rs' p within r m = within r ((Perm.mem_iff p).0 m)

module _ (call : Callback → Sources → Sources) (stops : Callback → Bool)
    (keeps : (cb : Callback) (ss : Sources) → Keeps ss (call cb ss))
    (never : (cb : Callback) → stops cb ≡ false) where
  handle_events-given :
      (rs : List (ℕ × ℕ)) (hs extra : List ℕ) (ss : Sources) (n : ℕ) (given : List (Option ℕ × ℕ))
      → handles ss ≡ hs ++ extra
      → AreWithin (length hs) rs
      → (handle_events call stops rs (running_with ss n given)).given ≡ given ++ map (named hs) rs
  unfolding handle_events AreWithin
  handle_events-given [] hs extra ss n given e within = sym (append-nil given)
  handle_events-given ((i, events) ∷ rs) hs extra ss n given e within =
      let d = event_handle_source call i events ss in
      let kept = event_handle_source-Keeps call keeps i events ss in
      let here : handle_at i ss ≡ get_elem? hs i =
        handle_at-handles i ss
        ∙ ap (λ l. get_elem? l i) e
        ∙ get_elem?-append hs extra i (within (i, events) mem-cons_self) in
      let e' : handles d.sources ≡ hs ++ (extra ++ kept.extra) =
        kept.grown ∙ ap (λ l. l ++ kept.extra) e ∙ append_assoc hs extra kept.extra in
      rw (here, none_stops stops d.calls never)
        (handle_events-given rs hs (extra ++ kept.extra) d.sources (n + 1)
            (given ++ ((get_elem? hs i, events) ∷ [])) e'
            (λ r m. within r (mem-cons_of_mem (i, events) m))
          ∙ append_assoc given ((get_elem? hs i, events) ∷ []) (map (named hs) rs))

  -- Where `poll` finds these `revents`, and `epoll_wait` receives the same events for the same sources, in any
  -- order, each received event is handled, once and in the order received, by the source that was at its
  -- place; so event_linux.c and event_posix.c hand the same events to the same handles, but for the order.
  -- The callbacks may add, change and remove sources in any way that keeps the handles of the sources in
  -- front; none of them stops the loop.
  pub handle_events-handle_loop :
      (revents : List ℕ) (received : List (ℕ × ℕ)) (ss : Sources)
      → length revents ≤ length ss
      → Perm received (reported 0 revents)
      → let by_epoll = (handle_events call stops received (running_with ss 0 [])).given in
        let by_poll =
          (handle_loop call stops
            (length (reported 0 revents))
            0
            revents
            (running_with ss 0 [])).given in
        (by_epoll ≡ map (named (handles ss)) received) × Perm by_epoll by_poll
  handle_events-handle_loop revents received ss le p =
      let hs = handles ss in
      let within : AreWithin (length hs) (reported 0 revents) =
        reported-AreWithin revents 0 (length hs) (omega (arith, le, length-handles ss)) in
      let whole = sym (append-nil hs) in
      let any_order =
        handle_events-given received hs [] ss 0 [] whole
          (perm-AreWithin (length hs) received (reported 0 revents) p within) in
      let in_order =
        ap (λ q. q.given)
          (handle_loop-handle_events call stops (length (reported 0 revents)) 0 revents
            (running_with ss 0 []) (omega arith))
        ∙ handle_events-given (reported 0 revents) hs [] ss 0 [] whole within in
      (any_order, rw (any_order, in_order) (Perm.map (named hs) p))
