-- ===== src/Log/Output.antt =====
-- log.c: log_set_output_unlocked, log_output and what log_forward does with a message: the outputs and
-- the rotation. What the outputs and the rotate function return are arguments.
pub mod Rotation
use daemonlib.Base.{
  ℕ, zero, suc, ◌+◌, ◌-◌, ◌*◌, bit_and, Bool, true, false, not, ◌&&◌, ◌||◌, Option, none, some,
  List, [], ◌∷◌, ◌++◌, length, ltb, leb, ◌==◌, if◌then◌else◌,
}
use daemonlib.Base.Int.{ℤ, pos, negsuc, int_leb, int_ltb}
use daemonlib.Log.Forward.{Message}

-- Where a message went: to an output, or to the platform.
pub data Shown : Type 0 where
  primary : ℕ → Message → Shown
  secondary : Message → Shown

-- `_output`, `_output_size`, whether there is a `_rotate` function, and `_rotate_countdown`; then what was
-- shown, and how often the rotate function was called.
pub record Output : Type 0 where
  pub output : Option ℕ
  pub output_size : ℤ
  pub rotate : Bool
  pub countdown : ℕ
  pub shown : List Shown
  pub rotations : ℕ

abbrev pub max_output_size : ℕ
max_output_size = 5 * 1024 * 1024

abbrev pub max_rotate_countdown : ℕ
max_rotate_countdown = 50

-- `status` is the size that `io_status` gives, or nothing if it fails.
pub log_set_output_unlocked : Option ℕ → Bool → Option ℤ → Output → Output
log_set_output_unlocked output rotate status o = record o {
  output = output;
  output_size = elim output [
    | none ↦ negsuc 0
    | some io ↦ if rotate then (elim status [ none ↦ negsuc 0 | some size ↦ size ]) else negsuc 0
  ];
  rotate = rotate;
  countdown = max_rotate_countdown;
}

-- `_output_size += length`, if neither is negative.
abbrev pub add_size : ℤ → ℤ → ℤ
add_size (pos size) (pos written) = pos (size + written)
add_size size written = size

abbrev pub show_primary : ℤ → Message → Output → Output
show_primary written message o = elim o.output [
  | none ↦ o
  | some io ↦ record o {
    output_size = add_size o.output_size written;
    shown = o.shown ++ (primary io message ∷ []);
  }
]

-- `written` is what `io_write` returns.
pub log_output : ℕ → ℤ → Message → Output → Output
log_output inclusion written message o =
    let o' = if not (bit_and inclusion 1 == 0) then show_primary written message o else o in
    if not (bit_and inclusion 2 == 0)
    then record o' { shown = o'.shown ++ (secondary message ∷ []) }
    else o'

-- The answers to one message: the bytes written, whether the rotate function fails, the size of the output
-- behind it, the message that it leaves, if its level is not `LOG_LEVEL_NONE`, with what
-- log_check_inclusion says of it and the bytes written of it.
pub record Answers : Type 0 where
  pub written : ℤ
  pub rotate_fails : Bool
  pub status : Option ℤ
  pub rotate_message : Option (ℕ × Message)
  pub rotate_written : ℤ

-- The condition under which the output is rotated.
abbrev pub is_due : Output → Bool
is_due o = o.rotate && (o.countdown == 0) && int_leb (pos max_output_size) o.output_size

abbrev pub rotate_output : Answers → Output → Output
rotate_output a o =
    let o' = record o { rotations = o.rotations + 1 } in
    if a.rotate_fails
    then log_set_output_unlocked none false none o'
    else log_set_output_unlocked o.output o.rotate a.status o'

abbrev pub show_rotated : Option (ℕ × Message) → ℤ → Output → Output
show_rotated none written o = o
show_rotated (some (inclusion, message)) written o =
    if not (inclusion == 0) then log_output inclusion written message o else o

-- What the inner loop of log_forward does with a message whose entry has the inclusion.
pub forward_message : Answers → ℕ → Message → Output → Output
forward_message a inclusion message o =
    let o1 = log_output inclusion a.written message o in
    let o2 = record o1 { countdown = o1.countdown - 1 } in
    if is_due o2 then show_rotated a.rotate_message a.rotate_written (rotate_output a o2) else o2

-- Messages in their order.
pub forward_messages : List (Answers × ℕ × Message) → Output → Output
forward_messages [] o = o
forward_messages ((a, inclusion, message) ∷ ms) o =
    forward_messages ms (forward_message a inclusion message o)
