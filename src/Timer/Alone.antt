-- ===== src/Timer/Alone.antt =====
-- Rounds of `timer_thread` while nothing interrupts it.
use daemonlib.Base.{ℕ, zero, suc, true, not, Option, none, some, List, [], ◌∷◌, if◌then◌else◌}
use daemonlib.Timer.{Tick, Timer, Wake, timed_out, Round, goes, leaves, Backend}

abbrev pub go_on : {L : Type 0} → (Timer → L → Option Timer) → Round L → Option Timer
go_on f (goes t l) = f t l
go_on f (leaves t) = some t

-- The timer after rounds that end their waits so, or none if a wait cannot end so; all other calls succeed.
unfoldable pub run : (B : Backend) → List Wake → Timer → B.Local → Option Timer
run B [] t l = some t
run B (w ∷ ws) t l = if not (B.can_wake w t l) then none else go_on (run B ws) (B.round w true t l)

abbrev pub timeouts : ℕ → List Wake
timeouts zero = []
timeouts (suc n) = timed_out ∷ timeouts n

abbrev pub copies : ℕ → Tick → List Tick
copies zero tick = []
copies (suc n) tick = tick ∷ copies n tick
