-- ===== src/Log/Output/Rotation.antt =====
-- log.c: how often the output is rotated.
use daemonlib.Base.{
  ℕ, suc, ◌+◌, ◌-◌, ◌*◌, ◌≤◌, ◌≡◌, refl, subst, Bool, true, false, not, ◌&&◌, Option, none, some,
  List, [], ◌∷◌, length, ◌==◌, if◌then◌else◌, Bool-cases, Option-cases, inl, inr, arith,
}
use daemonlib.Base.Int.{ℤ}
use daemonlib.Log.Forward.{Message}
use daemonlib.Log.Output.{
  Shown, Output, max_rotate_countdown, log_set_output_unlocked, show_primary, log_output, Answers,
  is_due, rotate_output, show_rotated, forward_message, forward_messages,
}

-- The countdown and the number of rotations.
abbrev Same : Output → Output → Type 0
Same o o' = (o'.countdown ≡ o.countdown) × (o'.rotations ≡ o.rotations)

show_primary-Same : (written : ℤ) (m : Message) (o : Output) → Same o (show_primary written m o)
show_primary-Same written m o = elim (Option-cases o.output) [
  | inl closed ↦ rw closed (refl, refl)
  | inr (io, open_output) ↦ rw open_output (refl, refl)
]

shown_too-Same :
    (b : Bool) (s : List Shown) (o o' : Output)
    → Same o o'
    → Same o (if b then record o' { shown = s } else o')
shown_too-Same true s o o' same = same
shown_too-Same false s o o' same = same

first-Same :
    (b : Bool) (written : ℤ) (m : Message) (o : Output)
    → Same o (if b then show_primary written m o else o)
first-Same true written m o = show_primary-Same written m o
first-Same false written m o = (refl, refl)

log_output-Same :
    (inclusion : ℕ) (written : ℤ) (m : Message) (o : Output)
    → Same o (log_output inclusion written m o)
unfolding log_output
log_output-Same inclusion written m o = shown_too-Same _ _ o _ (first-Same _ written m o)

show_rotated-Same :
    (r : Option (ℕ × Message)) (written : ℤ) (o : Output) → Same o (show_rotated r written o)
show_rotated-Same none written o = (refl, refl)
show_rotated-Same (some (inclusion, m)) written o = elim (Bool-cases (not (inclusion == 0))) [
  | inl included ↦ rw included (log_output-Same inclusion written m o)
  | inr excluded ↦ rw excluded (refl, refl)
]

rotate_output_lem :
    (a : Answers) (o : Output)
    → ((rotate_output a o).countdown ≡ max_rotate_countdown)
      × ((rotate_output a o).rotations ≡ o.rotations + 1)
unfolding log_set_output_unlocked
rotate_output_lem a o = elim (Bool-cases a.rotate_fails) [
  | inl failed ↦ rw failed (refl, refl)
  | inr done ↦ rw done (refl, refl)
]

and3_second : (a b c : Bool) → (a && b && c) ≡ true → b ≡ true
and3_second true true c h = refl
and3_second true false c h = absurd (ground arith)
and3_second false b c h = absurd (ground arith)

-- After `n` messages.
abbrev pub Paced : ℕ → Output → Type 0
Paced n o =
    (max_rotate_countdown * o.rotations ≤ n + o.countdown) × (o.countdown ≤ max_rotate_countdown)

-- What is done behind the countdown, if the output is rotated or not.
Paced-step :
    (a : Answers) (o : Output) (n : ℕ)
    → max_rotate_countdown * o.rotations ≤ n + 1 + o.countdown
    → o.countdown ≤ max_rotate_countdown
    → Paced
        (n + 1)
        (if is_due o then show_rotated a.rotate_message a.rotate_written (rotate_output a o) else o)
Paced-step a o n le low = elim (Bool-cases (is_due o)) [
  | inr later ↦ rw later (le, low)
  | inl due ↦
      let zero_left : (o.countdown == 0) ≡ true = and3_second o.rotate (o.countdown == 0) _ due in
      let (c, r) = rotate_output_lem a o in
      let (c', r') = show_rotated-Same a.rotate_message a.rotate_written (rotate_output a o) in
      let none_left : o.countdown ≡ 0 = ground (arith, zero_left) in
      rw due (omega (arith, le, c, r, c', r', none_left), omega (arith, c, c'))
]

forward_message-Paced :
    (a : Answers) (inclusion : ℕ) (m : Message) (o : Output) (n : ℕ)
    → Paced n o
    → Paced (n + 1) (forward_message a inclusion m o)
unfolding forward_message
forward_message-Paced a inclusion m o n (le, low) =
    let o1 = log_output inclusion a.written m o in
    let (c, r) = log_output-Same inclusion a.written m o in
    Paced-step a (record o1 { countdown = o1.countdown - 1 }) n (omega (arith, le, c, r))
      (omega (arith, low, c))

-- The output is rotated at most once in 50 messages: if 50 times the rotations so far are at most the
-- messages so far and the countdown, and this is at most 50, then the same holds after more messages,
-- whatever the outputs and the rotate function answer.
pub forward_messages-Paced :
    (ms : List (Answers × ℕ × Message)) (o : Output) (n : ℕ)
    → Paced n o
    → Paced (n + length ms) (forward_messages ms o)
unfolding forward_messages
forward_messages-Paced [] o n (le, low) = (omega (arith, le), low)
forward_messages-Paced ((a, inclusion, m) ∷ ms) o n paced =
    let e : n + 1 + length ms ≡ n + suc (length ms) = omega arith in
    subst (λ k. Paced k (forward_messages ms (forward_message a inclusion m o))) e
      (forward_messages-Paced ms (forward_message a inclusion m o) (n + 1)
        (forward_message-Paced a inclusion m o n paced))
