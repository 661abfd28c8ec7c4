-- ===== src/Timer/Configure.antt =====
-- timer_configure of timer_posix.c, timer_winapi.c and timer_uwp.c, with the round in which the thread answers.
use daemonlib.Base.{
  ℕ, ◌+◌, ◌-◌, ◌^◌, ◌≡◌, refl, sym, ap, ◌∙◌, Bool, true, false, not, ◌&&◌, none, some, ltb,
  if◌then◌else◌, Bool-cases, inl, inr, arith,
}
use daemonlib.Timer.{
  Timer, set_configuration, finish_configure, answer, leaves, goes, stop, interrupted, timer_after,
}
use daemonlib.Timer.Posix as posix
use daemonlib.Timer.Winapi as winapi
use daemonlib.Timer.Uwp as uwp

-- The result of `timer_configure`, and the timer: a configuration that is accepted is kept, and it is an error
-- if the interrupt could not be raised.
abbrev pub configured : (accepted raised : Bool) → ℕ → ℕ → Timer → Bool × Timer
configured accepted raised delay interval t =
    (accepted && raised, if accepted then set_configuration delay interval t else t)

abbrev pub fits : ℕ → ℕ → Bool
fits delay interval = not (ltb (2 ^ 31 - 1) delay) && not (ltb (2 ^ 31 - 1) interval)

-- The semaphore and the interrupt after the answer.
settled :
    (x : Timer) (k : ℕ)
    → x.running ≡ true
    → k ≡ x.interrupt
    → finish_configure (record x { interrupt = k; handshake = x.handshake + 1 }) ≡ (true, x)
settled x k alive same =
    let back : x.handshake + 1 - 1 ≡ x.handshake = omega arith in
    ap (λ b. (b, record x { interrupt = k; handshake = x.handshake + 1 - 1 })) alive
    ∙ (ap (λ k. (true, record x { interrupt = k; handshake = x.handshake + 1 - 1 })) same
        ∙ ap (λ h. (true, record x { handshake = h })) back)

-- The same, by the round that takes the interrupt.
answers :
    {L : Type 0} (x : Timer) (k : ℕ) (l : L) (b : Bool)
    → x.running ≡ b
    → b ≡ true
    → k ≡ x.interrupt
    → let u = record x { interrupt = k } in
      finish_configure (
        timer_after
          (if not b then leaves (stop u) else goes (record u { handshake = u.handshake + 1 }) l))
      ≡ (true, x)
answers x k l true alive same settles = settled x k alive settles
answers x k l false stopped bad settles = ground (arith, bad)

answered :
    (raise meanwhile : Timer → Timer) (accepted raised : Bool) (t x : Timer)
    → (accepted ≡ true → finish_configure (meanwhile (raise x)) ≡ (true, x))
    → answer raise meanwhile raised t (if accepted then some x else none)
      ≡ (accepted && raised, if accepted then x else t)
answered raise meanwhile false raised t x done = refl
answered raise meanwhile true false t x done = refl
answered raise meanwhile true true t x done = done refl

flip :
    {A : Type 0} (b : Bool) (x : A)
    → (if not b then none else some x) ≡ (if b then some x else none)
flip true x = refl
flip false x = refl

posix_start :
    (delay interval : ℕ) (t : Timer)
    → posix.start_configure delay interval t ≡ (
        if fits delay interval && t.running
        then some (set_configuration delay interval t)
        else none)
unfolding posix.start_configure
posix_start delay interval t = elim (Bool-cases (ltb (2 ^ 31 - 1) delay)) [
  | inl long ↦ rw long refl
  | inr ok ↦ elim (Bool-cases (ltb (2 ^ 31 - 1) interval)) [
    | inl long ↦ rw (ok, long) refl
    | inr ok_too ↦ rw (ok, ok_too) (flip t.running _)
  ]
]

-- For each of the three files, where the thread's calls succeed: `timer_configure` keeps the configuration and
-- increments the id, with the interrupt taken and the semaphore as before, unless it refuses, and then the
-- timer is unchanged; it succeeds if also the interrupt could be raised. All refuse if the timer is not
-- running, timer_posix.c also if the delay or the interval does not fit in 31 bits.
pub timer_configure-configured :
    (raised : Bool) (delay interval : ℕ) (t : Timer) (l : posix.Local) (m : winapi.Local)
    (n : uwp.Local)
    → t.interrupt ≡ 0
    → (posix.timer_configure raised
          (λ t. timer_after (posix.round interrupted true t l))
          delay
          interval
          t
        ≡ configured (fits delay interval && t.running) raised delay interval t)
      × (winapi.timer_configure raised
            (λ t. timer_after (winapi.round interrupted true t m))
            delay
            interval
            t
          ≡ configured t.running raised delay interval t)
      × (uwp.timer_configure raised
            (λ t. timer_after (uwp.round interrupted true t n))
            delay
            interval
            t
          ≡ configured t.running raised delay interval t)
unfolding posix.timer_configure posix.round winapi.timer_configure winapi.start_configure
    winapi.round uwp.timer_configure uwp.start_configure uwp.round
timer_configure-configured raised delay interval t l m n quiet =
    let x : Timer = set_configuration delay interval t in
    (
      ap (answer posix.raise (λ t. timer_after (posix.round interrupted true t l)) raised t)
            (posix_start delay interval t)
          ∙ answered posix.raise (λ t. timer_after (posix.round interrupted true t l))
              (fits delay interval && t.running) raised t x
              (λ accepted.
                answers x (t.interrupt + 1 - 1) (posix.new_locals x) t.running refl
                  (ground (arith, accepted)) (omega arith)),
      ap (answer winapi.raise (λ t. timer_after (winapi.round interrupted true t m)) raised t)
            (flip t.running x)
          ∙ answered winapi.raise (λ t. timer_after (winapi.round interrupted true t m)) t.running
              raised t x
              (λ alive. answers x 0 (winapi.new_locals x) t.running refl alive (sym quiet)),
      ap (answer uwp.raise (λ t. timer_after (uwp.round interrupted true t n)) raised t)
            (flip t.running x)
          ∙ answered uwp.raise (λ t. timer_after (uwp.round interrupted true t n)) t.running raised
              t x (λ alive. answers x 0 (uwp.new_locals x) t.running refl alive (sym quiet)),
    )
