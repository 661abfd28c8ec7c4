-- ===== src/PidFile.antt =====
-- pid_file.c: processes that acquire and release a PID file, one system call at a time. What the calls do to
-- the file's name and to the lock is what POSIX says of them.
pub mod Exclusion
mod Tests
use daemonlib.Base.{ℕ, ◌+◌, ◌≡◌, Bool, true, false, Option, none, some, ◌==◌, if◌then◌else◌}

-- The inode that the name stands for, the inode that is created next, and the process that has a lock, for
-- each inode.
pub record Files : Type 0 where
  pub named : Option ℕ
  pub next : ℕ
  pub lock : ℕ → Option ℕ

-- Where a process is: outside, or with the inode of `fd`: opened, with its status taken; locked; in
-- pid_file_acquire after the loop, with a file whose inode matches; returned with it; and unlinked in
-- pid_file_release.
pub data Pc : Type 0 where
  outside : Pc
  opened locked matched acquired unlinked : ℕ → Pc

pub record System : Type 0 where
  pub files : Files
  pub pc : ℕ → Pc

abbrev pub update : {A : Type 0} → (ℕ → A) → ℕ → A → ℕ → A
update f i v j = if j == i then v else f j

-- `open` with O_CREAT, for what the name stands for.
abbrev pub open_named : Option ℕ → Files → ℕ × Files
open_named (some inode) fs = (inode, fs)
open_named none fs = (fs.next, record fs { named = some fs.next; next = fs.next + 1 })

abbrev pub open_file : Files → ℕ × Files
open_file fs = open_named fs.named fs

-- A process that closes the file gives up its lock on it.
abbrev pub close_file : ℕ → Files → Files
close_file inode fs = record fs { lock = update fs.lock inode none }

-- The ways of a process from one place to the next: a failure that returns goes outside, and so does the
-- `continue` of the loop, which opens the file again.
pub data Move (p : ℕ) (fs : Files) : Pc → Files → Pc → Type 0 where
  opens : Move p fs outside (open_file fs).1 (opened (open_file fs).0)
  cannot_take_status : (inode : ℕ) → Move p fs (opened inode) fs outside
  locks :
      (inode : ℕ)
      → fs.lock inode ≡ none
      → Move p fs (opened inode) (record fs { lock = update fs.lock inode (some p) }) (locked inode)
  cannot_lock : (inode : ℕ) → Move p fs (opened inode) fs outside
  matches : (inode : ℕ) → fs.named ≡ some inode → Move p fs (locked inode) fs (matched inode)
  tries_again : (inode : ℕ) → Move p fs (locked inode) (close_file inode fs) outside
  writes : (inode : ℕ) → Move p fs (matched inode) fs (acquired inode)
  cannot_write : (inode : ℕ) → Move p fs (matched inode) (close_file inode fs) outside
  unlinks : (inode : ℕ) → Move p fs (acquired inode) (record fs { named = none }) (unlinked inode)
  closes : (inode : ℕ) → Move p fs (unlinked inode) (close_file inode fs) outside

pub data Step (s : System) : System → Type 0 where
  moves :
      (p : ℕ) (fs : Files) (x : Pc)
      → Move p s.files (s.pc p) fs x
      → Step s (record { files = fs; pc = update s.pc p x })

pub data Reach (fs : Files) : System → Type 0 where
  start : Reach fs (record { files = fs; pc = λ p. outside })
  later : {s s' : System} → Reach fs s → Step s s' → Reach fs s'
