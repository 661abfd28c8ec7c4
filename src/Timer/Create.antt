-- ===== src/Timer/Create.antt =====
-- timer_create_ and timer_destroy of timer_posix.c, timer_winapi.c and timer_uwp.c.
use daemonlib.Base.{
  ◌≡◌, refl, Bool, true, false, not, ◌&&◌, Option, none, some, if◌then◌else◌, Bool-cases, inl, inr,
  ap,
}
use daemonlib.Timer.{Timer, new_timer, Held, nothing_held, all_held}
use daemonlib.Timer.Posix.Create as posix
use daemonlib.Timer.Winapi.Create as winapi
use daemonlib.Timer.Uwp.Create as uwp

-- What `timer_create_` returns and holds, if all its calls succeed and if one fails.
abbrev pub whole : (waitable created : Bool) → Option Timer × Held
whole waitable created =
    if created then (some new_timer, all_held waitable) else (none, nothing_held)

-- For each of the three files: `timer_create_` succeeds if all of its calls do, and then it holds everything and
-- the timer is new; if one of them fails it returns nothing and holds nothing, whichever it is.
pub timer_create-whole :
    (pipe waitable interrupt added : Bool)
    → (posix.timer_create pipe interrupt added nothing_held
        ≡ whole false (pipe && (interrupt && added)))
      × (winapi.timer_create pipe waitable interrupt added nothing_held
          ≡ whole true (pipe && (waitable && (interrupt && added))))
      × (uwp.timer_create pipe interrupt added nothing_held
          ≡ whole false (pipe && (interrupt && added)))
unfolding posix.timer_create winapi.timer_create uwp.timer_create
timer_create-whole false waitable interrupt added = (refl, refl, refl)
timer_create-whole true false false added = (refl, refl, refl)
timer_create-whole true false true false = (refl, refl, refl)
timer_create-whole true false true true = (refl, refl, refl)
timer_create-whole true true false added = (refl, refl, refl)
timer_create-whole true true true false = (refl, refl, refl)
timer_create-whole true true true true = (refl, refl, refl)

-- What is left of `all_held` after `timer_destroy`.
abbrev pub remains : (joined : Bool) → Held
remains joined = record nothing_held { thread = not joined }

-- For each of the three files: `timer_destroy` stops the timer and gives back all that `timer_create_` took but
-- the thread, which it joins only if it was running and the interrupt could be raised.
pub timer_destroy-remains :
    (raised : Bool) (t : Timer)
    → (posix.timer_destroy raised t (all_held false)
        ≡ (record t { running = false }, remains (t.running && raised)))
      × (winapi.timer_destroy raised t (all_held true)
          ≡ (record t { running = false }, remains (t.running && raised)))
      × (uwp.timer_destroy raised t (all_held false)
          ≡ (record t { running = false }, remains (t.running && raised)))
unfolding posix.timer_destroy winapi.timer_destroy uwp.timer_destroy
timer_destroy-remains raised t = elim (Bool-cases t.running) [
  | inl alive ↦ elim (Bool-cases raised) [
    | inl done ↦ simp (alive, done) (refl, refl, refl)
    | inr failed ↦ simp (alive, failed) (refl, refl, refl)
  ]
  | inr stopped ↦
      let left : (t, remains false) ≡ (record t { running = false }, remains false) =
        ap (λ b. (record t { running = b }, remains false)) stopped in
      simp stopped (left, left, left)
]
