-- ===== src/Event/Poll/Order.antt =====
-- event_posix.c: the loop over the descriptors hands each source that is ready its own events.
use mathlib.Core.List.{head-eq_of_cons-eq}
use daemonlib.Base.{
  ℕ, zero, suc, ◌+◌, ◌-◌, ◌≤◌, ◌≡◌, refl, sym, ap, ◌∙◌, Bool, true, false, Option, some, List, [],
  ◌∷◌, ◌++◌, append_assoc, append-nil, take, drop, length, length-append, ltb, ◌==◌, if◌then◌else◌,
  Bool-cases, inl, inr, arith,
}
use daemonlib.Event.{Callback, Sources}
use daemonlib.Event.Handle.{event_handle_source}
use daemonlib.Event.Handle.Calls.{event_handle_source-Keeps}
use daemonlib.Event.Keeps.{Keeps, handles}
use daemonlib.Event.Poll.{Polled, handle_at, any_stops, handle_loop}

-- The handles that were polled whose descriptors have events.
abbrev pub ready_handles : List ℕ → List ℕ → List (Option ℕ × ℕ)
ready_handles [] rs = []
ready_handles (h ∷ hs) [] = []
ready_handles (h ∷ hs) (r ∷ rs) =
    if r == 0 then ready_handles hs rs else (some h, r) ∷ ready_handles hs rs

abbrev pub running_with : Sources → ℕ → List (Option ℕ × ℕ) → Polled
running_with ss n given = record { running = true; handled = n; sources = ss; given = given }

handle_at-append :
    (before behind : List ℕ) (h : ℕ) (ss : Sources)
    → handles ss ≡ before ++ (h ∷ behind)
    → handle_at (length before) ss ≡ some h
handle_at-append [] behind h [] e = absurd (omega (arith, ap length e))
handle_at-append [] behind h (s ∷ ss) e = ap some (head-eq_of_cons-eq e)
handle_at-append (b ∷ before) behind h [] e = absurd (omega (arith, ap length e))
handle_at-append (b ∷ before) behind h (s ∷ ss) e =
    let f : handles ss ≡ before ++ (h ∷ behind) = ap (drop 1) e in
    handle_at-append before behind h ss f

pub none_stops :
    (stops : Callback → Bool) (cbs : List Callback)
    → ((cb : Callback) → stops cb ≡ false)
    → any_stops stops cbs ≡ false
none_stops stops [] never = refl
none_stops stops (cb ∷ cbs) never = rw (never cb) (none_stops stops cbs never)

abbrev nothing : List (Option ℕ × ℕ)
nothing = []

take_nil : (n : ℕ) → take n nothing ≡ nothing
take_nil zero = refl
take_nil (suc n) = refl

pub length-handles : (ss : Sources) → length (handles ss) ≡ length ss
length-handles [] = refl
length-handles (s ∷ ss) = ap suc (length-handles ss)

module _ (call : Callback → Sources → Sources) (stops : Callback → Bool) (ready : ℕ)
    (keeps : (cb : Callback) (ss : Sources) → Keeps ss (call cb ss))
    (never : (cb : Callback) → stops cb ≡ false) where
  handle_loop-given :
      (rs before hs extra : List ℕ) (i : ℕ) (ss : Sources) (n : ℕ) (given : List (Option ℕ × ℕ))
      → i ≡ length before
      → handles ss ≡ before ++ (hs ++ extra)
      → length rs ≤ length hs
      → (handle_loop call stops ready i rs (running_with ss n given)).given
        ≡ given ++ take (ready - n) (ready_handles hs rs)
  unfolding handle_loop
  handle_loop-given [] before [] extra i ss n given at e le =
      sym (ap (λ l. given ++ l) (take_nil (ready - n)) ∙ append-nil given)
  handle_loop-given [] before (h ∷ hs) extra i ss n given at e le =
      sym (ap (λ l. given ++ l) (take_nil (ready - n)) ∙ append-nil given)
  handle_loop-given (r ∷ rs) before [] extra i ss n given at e le = absurd (omega (arith, le))
  handle_loop-given (r ∷ rs) before (h ∷ hs) extra i ss n given at e le =
      let at' : i + 1 ≡ length (before ++ (h ∷ [])) =
        omega (arith, at, length-append before (h ∷ [])) in
      let e' : handles ss ≡ (before ++ (h ∷ [])) ++ (hs ++ extra) =
        e ∙ sym (append_assoc before (h ∷ []) (hs ++ extra)) in
      elim (Bool-cases (ltb n ready)) [
        | inr enough ↦
            let none_left : ready - n ≡ 0 = ground (arith, enough) in
            rw (handle_loop, enough, none_left) (sym (append-nil given))
        | inl more ↦ elim (Bool-cases (r == 0)) [
          | inl quiet ↦
              rw (handle_loop, more, quiet)
                (handle_loop-given rs (before ++ (h ∷ [])) hs extra (i + 1) ss n given at' e'
                  (omega (arith, le)))
          | inr active ↦
              let d = event_handle_source call i r ss in
              let kept = event_handle_source-Keeps call keeps i r ss in
              let here : handle_at i ss ≡ some h =
                rw at (handle_at-append before (hs ++ extra) h ss e) in
              let e'' : handles d.sources ≡ (before ++ (h ∷ [])) ++ (hs ++ (extra ++ kept.extra)) =
                kept.grown
                ∙ ap (λ l. l ++ kept.extra) e'
                ∙ append_assoc (before ++ (h ∷ [])) (hs ++ extra) kept.extra
                ∙ ap (λ l. (before ++ (h ∷ [])) ++ l) (append_assoc hs extra kept.extra) in
              let one_more : ready - n ≡ suc (ready - (n + 1)) = ground (arith, more) in
              rw (handle_loop, more, active, here, none_stops stops d.calls never, one_more)
                (handle_loop-given rs (before ++ (h ∷ [])) hs (extra ++ kept.extra) (i + 1)
                    d.sources (n + 1) (given ++ ((some h, r) ∷ [])) at' e'' (omega (arith, le))
                  ∙ append_assoc given ((some h, r) ∷ [])
                      (take (ready - (n + 1)) (ready_handles hs rs)))
        ]
      ]

  -- In one round the sources whose descriptors have events, as many of them as `poll` says, are handled,
  -- each once, with its own events and in their order, and no others: the source that is handled has
  -- the handle that was polled. The callbacks may add, change and remove sources in any way that keeps
  -- the handles of the sources in front; none of them stops the loop.
  pub handle_loop_lem :
      (revents : List ℕ) (ss : Sources)
      → length revents ≤ length ss
      → (handle_loop call stops ready 0 revents (running_with ss 0 [])).given
        ≡ take ready (ready_handles (handles ss) revents)
  handle_loop_lem revents ss le =
      let size : length revents ≤ length (handles ss) = omega (arith, le, length-handles ss) in
      let all : ready - 0 ≡ ready = omega arith in
      handle_loop-given revents [] (handles ss) [] 0 ss 0 [] refl (sym (append-nil (handles ss)))
        size
      ∙ (rw all refl)
