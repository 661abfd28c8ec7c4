-- ===== src/Event/Epoll/Agreement.antt =====
-- event_linux.c and event_posix.c handle events alike, where they come in the same order.
use daemonlib.Base.{
  ℕ, suc, ◌+◌, ◌≡◌, refl, sym, ap, ◌∙◌, Bool, true, false, not, ◌&&◌, List, [], ◌∷◌, length, ltb,
  ◌==◌, if◌then◌else◌, Bool-cases, inl, inr, arith,
}
use daemonlib.Event.{Callback, Sources}
use daemonlib.Event.Poll.{Polled, handle_one, handle_loop}
use daemonlib.Event.Epoll.{handle_events}

-- The sources from a place on that have events, with these `revents`, in their order.
abbrev pub reported : ℕ → List ℕ → List (ℕ × ℕ)
reported i [] = []
reported i (events ∷ rs) =
    let rest = reported (i + 1) rs in if events == 0 then rest else (i, events) ∷ rest

both :
    {x y : Polled} (running more quiet : Bool) (p skipped : Polled)
    → running ≡ true
    → more ≡ true
    → quiet ≡ false
    → x ≡ y
    → (if not (running && more) then p else (if quiet then skipped else x))
      ≡ (if not running then p else y)
both true true false p skipped a b c e = e
both true true true p skipped a b c e = ground (arith, c)
both true false quiet p skipped a b c e = ground (arith, b)
both false more quiet p skipped a b c e = ground (arith, a)

module _ (call : Callback → Sources → Sources) (stops : Callback → Bool) where
  stopped_events :
      (rs : List (ℕ × ℕ)) (p : Polled) → p.running ≡ false → handle_events call stops rs p ≡ p
  unfolding handle_events
  stopped_events [] p stopped = refl
  stopped_events ((i, events) ∷ rs) p stopped = simp stopped refl

  none_left : (rs : List (ℕ × ℕ)) (p : Polled) → length rs ≡ 0 → handle_events call stops rs p ≡ p
  unfolding handle_events
  none_left [] p e = refl
  none_left (r ∷ rs) p e = ground (arith, e)

  -- Where `poll` returns how many sources have events, and the same events are received for the same sources in
  -- the order of the sources, the two loops do the same to the sources, whatever the callbacks do and also if
  -- one stops the loop.
  pub handle_loop-handle_events :
      (ready i : ℕ) (rs : List ℕ) (p : Polled)
      → p.handled + length (reported i rs) ≡ ready
      → handle_loop call stops ready i rs p ≡ handle_events call stops (reported i rs) p
  unfolding handle_loop handle_events
  handle_loop-handle_events ready i [] p e = refl
  handle_loop-handle_events ready i (events ∷ rs) p e = elim (Bool-cases p.running) [
    | inr stopped ↦ simp stopped (sym (stopped_events (reported i (events ∷ rs)) p stopped))
    | inl alive ↦ elim (Bool-cases (events == 0)) [
      | inl quiet ↦
          let same : reported i (events ∷ rs) ≡ reported (i + 1) rs = simp quiet refl in
          let e' : p.handled + length (reported (i + 1) rs) ≡ ready =
            ap (λ zs. p.handled + length zs) (sym same) ∙ e in
          elim (Bool-cases (ltb p.handled ready)) [
            | inl more ↦ simp (alive, quiet, more) (handle_loop-handle_events ready (i + 1) rs p e')
            | inr full ↦
                simp (alive, quiet, full)
                  (sym (none_left (reported (i + 1) rs) p (ground (arith, full, e'))))
          ]
      | inr busy ↦
          let same : reported i (events ∷ rs) ≡ (i, events) ∷ reported (i + 1) rs =
            simp busy refl in
          let e' : p.handled + suc (length (reported (i + 1) rs)) ≡ ready =
            ap (λ zs. p.handled + length zs) (sym same) ∙ e in
          let more : ltb p.handled ready ≡ true = ground (arith, e') in
          both p.running (ltb p.handled ready) (events == 0) p
            (handle_loop call stops ready (i + 1) rs p) alive more busy
            (handle_loop-handle_events ready (i + 1) rs (handle_one call stops i events p)
              (omega (arith, e')))
          ∙ ap (λ zs. handle_events call stops zs p) (sym same)
    ]
  ]
