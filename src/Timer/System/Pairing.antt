-- ===== src/Timer/System/Pairing.antt =====
-- How the interrupt and the semaphore of a timer go together: timer_posix.c, timer_winapi.c and timer_uwp.c.
use daemonlib.Base.{
  ℕ, ◌+◌, ◌-◌, ◌<◌, ◌≡◌, inl, inr, refl, sym, ◌∙◌, subst, true, false, Bool-cases, List, [], ◌∷◌,
  ◌==◌, arith,
}
use daemonlib.Timer.{
  Configuration, Tick, Timer, read_tick, set_configuration, stop, Round, goes, leaves, Outcome,
  nothing, ticks, loads, breaks, Backend,
}
use daemonlib.Timer.System.{
  Main, Thread, not_started, started, stopped, System, after, outside, assigned, waiting,
  destroying, joining, gone,
}

-- While the thread lives: what is pending.
abbrev pub IsLive : Main → Timer → Type 0
IsLive outside t = (t.interrupt ≡ 0) × (t.handshake ≡ 0)
IsLive assigned t = (t.interrupt ≡ 0) × (t.handshake ≡ 0)
IsLive waiting t = t.interrupt + t.handshake ≡ 1
IsLive destroying t = (t.running ≡ false) × (t.interrupt ≡ 0)
IsLive joining t = (t.running ≡ false) × (t.interrupt ≡ 1)
IsLive gone t = Unit {0}

-- After the thread has left its loop.
abbrev IsOver : Main → Timer → Type 0
IsOver outside t = t.running ≡ false
IsOver assigned t = (t.running ≡ false) × (0 < t.handshake)
IsOver waiting t = (t.running ≡ false) × (0 < t.handshake)
IsOver destroying t = t.running ≡ false
IsOver joining t = t.running ≡ false
IsOver gone t = Unit {0}

abbrev pub IsPaired : {L : Type 0} → Main → Thread L → Timer → Type 0
IsPaired m not_started t = IsLive m t
IsPaired m (started l) t = IsLive m t
IsPaired m stopped t = IsOver m t

abbrev pub Holds : {L : Type 0} → System L → Type 0
Holds s = IsPaired s.main s.thread s.timer

Outcome-Holds :
    {L : Type 0} (id : L → ℕ) (under : L → Configuration) (s : System L) (m : Main) (l : L)
    (r : Round L)
    → Outcome id under s.timer l r
    → IsLive m s.timer
    → IsPaired m (after r s).thread (after r s).timer
Outcome-Holds id under s m l _ (nothing l' a b) live = live
Outcome-Holds id under s outside l _ (ticks l' a b on) live = live
Outcome-Holds id under s assigned l _ (ticks l' a b on) live = live
Outcome-Holds id under s waiting l _ (ticks l' a b on) live = live
Outcome-Holds id under s destroying l _ (ticks l' a b on) live = live
Outcome-Holds id under s joining l _ (ticks l' a b on) live = live
Outcome-Holds id under s gone l _ (ticks l' a b on) live = live
Outcome-Holds id under s outside l _ (loads k l' less alive a b) (p, q) = ground (arith, p, less)
Outcome-Holds id under s assigned l _ (loads k l' less alive a b) (p, q) = ground (arith, p, less)
Outcome-Holds id under s waiting l _ (loads k l' less alive a b) p = omega (arith, p, less)
Outcome-Holds id under s destroying l _ (loads k l' less alive a b) (p, q) =
    ground (arith, p, alive)
Outcome-Holds id under s joining l _ (loads k l' less alive a b) (p, q) = ground (arith, p, alive)
Outcome-Holds id under s gone l _ (loads k l' less alive a b) live = tt
Outcome-Holds id under s outside l _ (breaks k less) live = refl
Outcome-Holds id under s assigned l _ (breaks k less) live = (refl, omega arith)
Outcome-Holds id under s waiting l _ (breaks k less) live = (refl, omega arith)
Outcome-Holds id under s destroying l _ (breaks k less) live = refl
Outcome-Holds id under s joining l _ (breaks k less) live = refl
Outcome-Holds id under s gone l _ (breaks k less) live = tt

-- The timer's loop ends where it is tested.
pub stop-IsOver : (m : Main) (t : Timer) → IsOver m (stop t)
stop-IsOver outside t = refl
stop-IsOver assigned t = (refl, omega arith)
stop-IsOver waiting t = (refl, omega arith)
stop-IsOver destroying t = refl
stop-IsOver joining t = refl
stop-IsOver gone t = tt

pub starts-Holds :
    {L : Type 0} (m : Main) (th : Thread L) (l : L) (t : Timer)
    → th ≡ not_started
    → IsPaired m th t
    → IsPaired m (started l) t
starts-Holds m th l t fresh h = subst (λ th. IsPaired m th t) fresh h

pub assigns-Holds :
    {L : Type 0} (th : Thread L) (delay interval : ℕ) (t : Timer)
    → t.running ≡ true
    → IsPaired outside th t
    → IsPaired assigned th (set_configuration delay interval t)
assigns-Holds not_started delay interval t alive h = h
assigns-Holds (started l) delay interval t alive h = h
assigns-Holds stopped delay interval t alive h = ground (arith, alive, h)

pub cannot_raise-Holds :
    {L : Type 0} (th : Thread L) (t : Timer) → IsPaired assigned th t → IsPaired outside th t
cannot_raise-Holds not_started t h = h
cannot_raise-Holds (started l) t h = h
cannot_raise-Holds stopped t h = h.0

pub raises-Holds :
    {L : Type 0} (th : Thread L) (t : Timer) (k : ℕ)
    → (t.interrupt ≡ 0 → k ≡ 1)
    → IsPaired assigned th t
    → IsPaired waiting th (record t { interrupt = k })
raises-Holds not_started t k one (a, b) = let e = one a in omega (arith, e, b)
raises-Holds (started l) t k one (a, b) = let e = one a in omega (arith, e, b)
raises-Holds stopped t k one h = h

pub raises_last-Holds :
    {L : Type 0} (th : Thread L) (t : Timer) (k : ℕ)
    → (t.interrupt ≡ 0 → k ≡ 1)
    → IsPaired destroying th t
    → IsPaired joining th (record t { interrupt = k })
raises_last-Holds not_started t k one (a, b) = (a, one b)
raises_last-Holds (started l) t k one (a, b) = (a, one b)
raises_last-Holds stopped t k one h = h

pub acquires-Holds :
    {L : Type 0} (th : Thread L) (t : Timer)
    → 0 < t.handshake
    → IsPaired waiting th t
    → IsPaired outside th (record t { handshake = t.handshake - 1 })
acquires-Holds not_started t count h = (omega (arith, count, h), omega (arith, count, h))
acquires-Holds (started l) t count h = (omega (arith, count, h), omega (arith, count, h))
acquires-Holds stopped t count h = h.0

pub destroys-Holds :
    {L : Type 0} (th : Thread L) (t : Timer)
    → IsPaired outside th t
    → IsPaired destroying th (record t { running = false })
destroys-Holds not_started t h = (refl, h.0)
destroys-Holds (started l) t h = (refl, h.0)
destroys-Holds stopped t h = refl

pub gone-Holds : {L : Type 0} (th : Thread L) (t : Timer) → IsPaired gone th t
gone-Holds not_started t = tt
gone-Holds (started l) t = tt
gone-Holds stopped t = tt

unread :
    {L : Type 0} (th : Thread L) (t t' : Timer)
    → t.running ≡ t'.running
    → t.interrupt ≡ t'.interrupt
    → t.handshake ≡ t'.handshake
    → IsPaired outside th t'
    → IsPaired outside th t
unread not_started t t' a b c h = (b ∙ h.0, c ∙ h.1)
unread (started l) t t' a b c h = (b ∙ h.0, c ∙ h.1)
unread stopped t t' a b c h = a ∙ h

pub handles-Holds :
    {L : Type 0} (th : Thread L) (more : List Tick) (t : Timer)
    → IsPaired outside th t
    → IsPaired outside th (read_tick more t).1
handles-Holds th [] t h = h
handles-Holds th (tick ∷ more) t h = elim (Bool-cases (tick.id == t.configuration_id)) [
  | inl same ↦ simp same (unread th (record t { notification = more }) t refl refl refl h)
  | inr other ↦ simp other (unread th (record t { notification = more }) t refl refl refl h)
]

after-main : {L : Type 0} (r : Round L) (s : System L) → s.main ≡ (after r s).main
after-main (goes t l) s = refl
after-main (leaves t) s = refl

pub rounds-Holds :
    (B : Backend) (s : System B.Local) (l : B.Local) (r : Round B.Local)
    → s.thread ≡ started l
    → Outcome B.id B.under s.timer l r
    → Holds s
    → Holds (after r s)
rounds-Holds B s l r live outcome h =
    subst (λ m. IsPaired m (after r s).thread (after r s).timer) (after-main r s)
      (Outcome-Holds B.id B.under s s.main l r outcome
        (subst (λ th. IsPaired s.main th s.timer) live h))

pub raised :
    (B : Backend) (s : System B.Local) (m : Main)
    → ((k : ℕ)
        → (s.timer.interrupt ≡ 0 → k ≡ 1)
        → IsPaired m s.thread (record s.timer { interrupt = k }))
    → IsPaired m s.thread (B.raise s.timer)
raised B s m h =
    let (k, e, one) = B.raise-interrupt s.timer in subst (IsPaired m s.thread) (sym e) (h k one)

pub main_is :
    {L : Type 0} (s : System L) (m : Main) → s.main ≡ m → Holds s → IsPaired m s.thread s.timer
main_is s m here h = subst (λ m. IsPaired m s.thread s.timer) here h
