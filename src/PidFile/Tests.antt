-- ===== src/PidFile/Tests.antt =====
-- A PID file of pid_file.c between processes.
use daemonlib.Base.{ℕ, ◌≡◌, refl, none, some}
use daemonlib.PidFile.{
  Files, Pc, System, outside, opened, locked, matched, acquired, update, opens, locks, matches,
  writes, moves, Reach, start, later,
}
use daemonlib.PidFile.Exclusion.{acquired_once}

abbrev no_file : Files
no_file = record { named = none; next = 4; lock = λ i. none }

abbrev has_file : Files
has_file = record no_file { named = some 4; next = 5 }

abbrev held : Files
held = record has_file { lock = update no_file.lock 4 (some 1) }

-- Process 1 acquires the file.
abbrev all_outside : ℕ → Pc
all_outside p = outside

abbrev done : System
done = record {
  files = held;
  pc =
      update (update (update (update all_outside 1 (opened 4)) 1 (locked 4)) 1 (matched 4)) 1
        (acquired 4);
}

done-Reach : Reach no_file done
done-Reach =
    later
      (later
        (later (later start (moves 1 has_file (opened 4) opens))
          (moves 1 held (locked 4) (locks 4 refl)))
        (moves 1 held (matched 4) (matches 4 refl)))
      (moves 1 held (acquired 4) (writes 4))

acquired_once_example : ◌≡◌ {A = ℕ} 1 1
acquired_once_example = acquired_once no_file done 1 1 4 4 done-Reach refl refl
