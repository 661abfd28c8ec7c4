-- ===== src/PidFile/Exclusion.antt =====
-- pid_file.c: who holds the PID file.
use daemonlib.Base.{
  ℕ, ◌≡◌, ◌≢◌, refl, sym, ap, ◌∙◌, subst, true, false, Option, none, some, ◌==◌, Bool-cases, inl,
  inr, arith,
}
use mathlib.Core.Option.{some-injective}
use daemonlib.PidFile.{
  Files, Pc, outside, opened, locked, matched, acquired, unlinked, System, update, open_named, Move,
  opens, cannot_take_status, locks, cannot_lock, matches, tries_again, writes, cannot_write,
  unlinks, closes, Step, moves, Reach, start, later,
}

-- What a process knows where it is: that it has the lock, and that the name stands for its inode.
IsHeld : Files → ℕ → Pc → Type 0
IsHeld fs p outside = Unit {0}
IsHeld fs p (opened inode) = Unit {0}
IsHeld fs p (locked inode) = fs.lock inode ≡ some p
IsHeld fs p (matched inode) = (fs.lock inode ≡ some p) × (fs.named ≡ some inode)
IsHeld fs p (acquired inode) = (fs.lock inode ≡ some p) × (fs.named ≡ some inode)
IsHeld fs p (unlinked inode) = fs.lock inode ≡ some p

update_self : {A : Type 0} (f : ℕ → A) (i : ℕ) (v : A) → update f i v i ≡ v
update_self f i v = let same : (i == i) ≡ true = ground arith in rw same refl

update_other : {A : Type 0} (f : ℕ → A) (i j : ℕ) (v : A) → j ≢ i → update f i v j ≡ f j
update_other f i j v e = let other : (j == i) ≡ false = ground (arith, e) in rw other refl

-- The process that moves.
Move-IsHeld :
    (p : ℕ) (fs fs' : Files) (x y : Pc) → Move p fs x fs' y → IsHeld fs p x → IsHeld fs' p y
unfolding IsHeld
Move-IsHeld p fs _ _ _ opens h = tt
Move-IsHeld p fs _ _ _ (cannot_take_status inode) h = tt
Move-IsHeld p fs _ _ _ (locks inode free) h = update_self fs.lock inode (some p)
Move-IsHeld p fs _ _ _ (cannot_lock inode) h = tt
Move-IsHeld p fs _ _ _ (matches inode same) h = (h, same)
Move-IsHeld p fs _ _ _ (tries_again inode) h = tt
Move-IsHeld p fs _ _ _ (writes inode) h = h
Move-IsHeld p fs _ _ _ (cannot_write inode) h = tt
Move-IsHeld p fs _ _ _ (unlinks inode) h = h.0
Move-IsHeld p fs _ _ _ (closes inode) h = tt

-- A lock of another process stays, and so does the name while another process needs it.
record Keeps (q : ℕ) (fs fs' : Files) : Type 0 where
  lock : (inode : ℕ) → fs.lock inode ≡ some q → fs'.lock inode ≡ some q
  named : (inode : ℕ) → fs.lock inode ≡ some q → fs.named ≡ some inode → fs'.named ≡ some inode

same-Keeps : (q : ℕ) (fs : Files) → Keeps q fs fs
same-Keeps q fs = record { lock = λ inode e. e; named = λ inode e n. n }

lock-Keeps :
    (p q : ℕ) (fs : Files) (inode : ℕ) (v : Option ℕ)
    → (fs.lock inode ≢ some q)
    → Keeps q fs (record fs { lock = update fs.lock inode v })
lock-Keeps p q fs inode v other = record {
  lock = λ i e. update_other fs.lock inode i v (λ same. other (ap fs.lock (sym same) ∙ e)) ∙ e;
  named = λ i e n. n;
}

not_ours :
    (p q : ℕ) (fs : Files) (inode : ℕ) → q ≢ p → fs.lock inode ≡ some p → fs.lock inode ≢ some q
not_ours p q fs inode other e e' = other (some-injective q p (sym e' ∙ e))

opens_lem : (q : ℕ) (fs : Files) (o : Option ℕ) → fs.named ≡ o → Keeps q fs (open_named o fs).1
opens_lem q fs (some inode) e = same-Keeps q fs
opens_lem q fs none e = record {
  lock = λ i held. held;
  named = λ i held n. let bad : none ≡ some i = sym e ∙ n in ground (arith, bad);
}

Move-Keeps :
    (p q : ℕ) (fs fs' : Files) (x y : Pc)
    → q ≢ p
    → Move p fs x fs' y
    → IsHeld fs p x
    → Keeps q fs fs'
unfolding IsHeld
Move-Keeps p q fs _ _ _ other opens h = opens_lem q fs fs.named refl
Move-Keeps p q fs _ _ _ other (cannot_take_status inode) h = same-Keeps q fs
Move-Keeps p q fs _ _ _ other (locks inode free) h =
    lock-Keeps p q fs inode (some p) (λ e. ground (arith, free, e))
Move-Keeps p q fs _ _ _ other (cannot_lock inode) h = same-Keeps q fs
Move-Keeps p q fs _ _ _ other (matches inode same) h = same-Keeps q fs
Move-Keeps p q fs _ _ _ other (tries_again inode) h =
    lock-Keeps p q fs inode none (not_ours p q fs inode other h)
Move-Keeps p q fs _ _ _ other (writes inode) h = same-Keeps q fs
Move-Keeps p q fs _ _ _ other (cannot_write inode) h =
    lock-Keeps p q fs inode none (not_ours p q fs inode other h.0)
Move-Keeps p q fs _ _ _ other (unlinks inode) (held, there) = record {
  lock = λ i e. e;
  named = λ i e n.
      let same : inode ≡ i = some-injective inode i (sym there ∙ n) in
      absurd (not_ours p q fs inode other held (ap fs.lock same ∙ e));
}
Move-Keeps p q fs _ _ _ other (closes inode) h =
    lock-Keeps p q fs inode none (not_ours p q fs inode other h)

Keeps-IsHeld : (q : ℕ) (fs fs' : Files) (x : Pc) → Keeps q fs fs' → IsHeld fs q x → IsHeld fs' q x
unfolding IsHeld
Keeps-IsHeld q fs fs' outside k h = tt
Keeps-IsHeld q fs fs' (opened inode) k h = tt
Keeps-IsHeld q fs fs' (locked inode) k h = k.lock inode h
Keeps-IsHeld q fs fs' (matched inode) k (h, n) = (k.lock inode h, k.named inode h n)
Keeps-IsHeld q fs fs' (acquired inode) k (h, n) = (k.lock inode h, k.named inode h n)
Keeps-IsHeld q fs fs' (unlinked inode) k h = k.lock inode h

Step-IsHeld :
    (s s' : System)
    → Step s s'
    → ((q : ℕ) → IsHeld s.files q (s.pc q))
    → (q : ℕ) → IsHeld s'.files q (s'.pc q)
Step-IsHeld s _ (moves p fs x move) h q = elim (Bool-cases (q == p)) [
  | inl same ↦
      let here : q ≡ p = ground (arith, same) in
      subst (λ q. IsHeld fs q (update s.pc p x q)) (sym here)
        (subst (IsHeld fs p) (sym (update_self s.pc p x))
          (Move-IsHeld p s.files fs (s.pc p) x move (h p)))
  | inr other ↦
      let apart : q ≢ p = λ e. ground (arith, other, e) in
      subst (IsHeld fs q) (sym (update_other s.pc p q x apart)) (
        Keeps-IsHeld q s.files fs (s.pc q) (Move-Keeps p q s.files fs (s.pc p) x apart move (h p))
          (h q))
]

Reach-IsHeld : (fs : Files) (s : System) → Reach fs s → (q : ℕ) → IsHeld s.files q (s.pc q)
unfolding IsHeld
Reach-IsHeld fs _ start q = tt
Reach-IsHeld fs s' (later {s} reach step) q = Step-IsHeld s s' step (Reach-IsHeld fs s reach) q

-- Whatever the file and its locks were before, and however processes acquire and release it, with failures:
-- two processes that have both acquired the PID file are the same process.
pub acquired_once :
    (fs : Files) (s : System) (p q i j : ℕ)
    → Reach fs s
    → s.pc p ≡ acquired i
    → s.pc q ≡ acquired j
    → p ≡ q
unfolding IsHeld
acquired_once fs s p q i j reach at_p at_q =
    let (lock_p, name_p) = subst (IsHeld s.files p) at_p (Reach-IsHeld fs s reach p) in
    let (lock_q, name_q) = subst (IsHeld s.files q) at_q (Reach-IsHeld fs s reach q) in
    let same : i ≡ j = some-injective i j (sym name_p ∙ name_q) in
    some-injective p q (sym lock_p ∙ (ap s.files.lock same ∙ lock_q))
