-- ===== src/Log/Forward/Framing.antt =====
-- log.c: the messages that log_forward finds in the bytes from the FIFO are those that log_message
-- wrote, however the bytes are cut.
use mathlib.Core.List.{head-eq_of_cons-eq}
use daemonlib.Base.{
  ℕ, zero, suc, ◌+◌, ◌-◌, ◌≤◌, ◌<◌, ◌≡◌, ◌≢◌, refl, sym, ap, ap₂, ◌∙◌, Bool, true, false, List, [],
  ◌∷◌, ◌++◌, append_assoc, length, length-append, take, drop, take_all, take-drop_of_append, ltb,
  leb, ◌==◌, if◌then◌else◌, Bool-cases, inl, inr, arith,
}
use daemonlib.Log.Forward.{Message, message_size, log_message, strnlen, drain_loop}

-- Two ways to cut one list.
pub append_cut :
    {A : Type 0} (xs ys front back : List A)
    → xs ++ ys ≡ front ++ back
    → length front ≤ length xs
    → (zs : List A) × (xs ≡ front ++ zs) × (zs ++ ys ≡ back)
append_cut xs ys [] back e le = (xs, refl, e)
append_cut [] ys (a ∷ front) back e le = absurd (omega arith)
append_cut (x ∷ xs) ys (a ∷ front) back e le =
    let f : xs ++ ys ≡ front ++ back = ap (drop 1) e in
    let (zs, g, h) = append_cut xs ys front back f (omega arith) in
    (zs, ap₂ (λ y l. y ∷ l) (head-eq_of_cons-eq e) g, h)

abbrev pub NoNul : List ℕ → Type 0
NoNul [] = Unit {0}
NoNul (c ∷ cs) = (c ≢ 0) × NoNul cs

-- The text has no NUL and fits.
abbrev pub IsMessage : ℕ → Message → Type 0
IsMessage entry_size (entry, text) =
    (length entry ≡ entry_size) × NoNul text × (length text < message_size)

abbrev pub AreMessages : ℕ → List Message → Type 0
AreMessages e [] = Unit {0}
AreMessages e (m ∷ ms) = IsMessage e m × AreMessages e ms

abbrev pub frames : List Message → List ℕ
frames [] = []
frames (m ∷ ms) = log_message m ++ frames ms

abbrev pub forward_all : {S : Type 0} → (Message → S → S) → List Message → S → S
forward_all f [] s = s
forward_all f (m ∷ ms) s = forward_all f ms (f m s)

strnlen-text : (text rest : List ℕ) → NoNul text → strnlen (text ++ (0 ∷ rest)) ≡ length text
unfolding strnlen
strnlen-text [] rest h = refl
strnlen-text (c ∷ cs) rest (h, hs) = ground (arith, strnlen-text cs rest hs, h)

-- In a part of a text there is no NUL.
strnlen-part :
    (w zs text : List ℕ)
    → NoNul text
    → w ++ zs ≡ text ++ (0 ∷ [])
    → length w ≤ length text
    → strnlen w ≡ length w
unfolding strnlen
strnlen-part [] zs text h e le = refl
strnlen-part (c ∷ w) zs [] h e le = absurd (omega arith)
strnlen-part (c ∷ w) zs (d ∷ text) (h, hs) e le =
    let f : w ++ zs ≡ text ++ (0 ∷ []) = ap (drop 1) e in
    let g : c ≡ d = head-eq_of_cons-eq e in
    ground (arith, strnlen-part w zs text hs f (omega arith), h, g)

pub log_message_small :
    (entry text : List ℕ)
    → length text < message_size
    → log_message (entry, text) ≡ entry ++ (text ++ (0 ∷ []))
unfolding log_message
log_message_small entry text small = rw (take_all (message_size - 1) text (omega arith)) refl

abbrev pub IsCut : List Message → List ℕ → Type 0
IsCut [] buffer = length buffer ≡ 0
IsCut (m ∷ ms) buffer = length buffer < length (log_message m)

-- From the buffer, `stream` being still to come, the messages `gone` were taken, and `left` are to come.
pub record Drained {S : Type 0} (f : Message → S → S) (ms : List Message) (stream : List ℕ) (s : S)
    (r : S × List ℕ) : Type 0 where
  pub gone : List Message
  pub left : List Message
  pub all : ms ≡ gone ++ left
  pub state : r.0 ≡ forward_all f gone s
  pub bytes : r.1 ++ stream ≡ frames left
  pub cut : IsCut left r.1

if_same : {A : Type 0} (b : Bool) {x : A} → (if b then x else x) ≡ x
if_same true = refl
if_same false = refl

take_front : (xs ys : List ℕ) → take (length xs) (xs ++ ys) ≡ xs
take_front xs ys = (take-drop_of_append (length xs) xs ys (omega (arith, length-append xs ys))).0

drop_front : (xs ys : List ℕ) (n : ℕ) → n ≡ length xs → drop n (xs ++ ys) ≡ ys
drop_front xs ys n e = (take-drop_of_append n xs ys (omega (arith, length-append xs ys))).1

-- A frame takes a byte at least.
pub log_message_room : (m : Message) → 0 < length (log_message m)
unfolding log_message
log_message_room (entry, text) = omega (
  arith,
  length-append entry (take (message_size - 1) text ++ (0 ∷ [])),
  length-append (take (message_size - 1) text) (0 ∷ []),
)

module _ {S : Type 0} (f : Message → S → S) (entry_size : ℕ) where
  drain_step :
      (k : ℕ) (entry text rest : List ℕ) (s : S)
      → IsMessage entry_size (entry, text)
      → drain_loop f entry_size (suc k) (entry ++ (text ++ (0 ∷ rest))) s
        ≡ drain_loop f entry_size k rest (f (entry, text) s)
  unfolding drain_loop
  drain_step k entry text rest s (size, clean, small) =
      let buffer = entry ++ (text ++ (0 ∷ rest)) in
      let whole : length buffer ≡ entry_size + (length text + suc (length rest)) =
        omega (arith, length-append entry (text ++ (0 ∷ rest)), length-append text (0 ∷ rest)) in
      let body : drop entry_size buffer ≡ text ++ (0 ∷ rest) =
        drop_front entry _ entry_size (sym size) in
      let front : take entry_size buffer ≡ entry = rw (← size) (take_front entry _) in
      let n : strnlen (text ++ (0 ∷ rest)) ≡ length text = strnlen-text text rest clean in
      let t : take (length text) (text ++ (0 ∷ rest)) ≡ text = take_front text _ in
      let behind : drop (entry_size + length text + 1) buffer ≡ rest =
        ap (drop (entry_size + length text + 1)) (
          sym (
            append_assoc entry (text ++ (0 ∷ [])) rest
            ∙ ap (λ l. entry ++ l) (append_assoc text (0 ∷ []) rest)))
        ∙ drop_front (entry ++ (text ++ (0 ∷ []))) rest _ (
            omega
              (arith, length-append entry (text ++ (0 ∷ [])), length-append text (0 ∷ []), size)) in
      let a : (length buffer == 0) ≡ false = ground (arith, whole) in
      let b : ltb (length buffer) entry_size ≡ false = ground (arith, whole) in
      let c : leb (length buffer - entry_size) (length text) ≡ false = ground (arith, whole) in
      rw (drain_loop, a, b, body, n, c, front, t, behind) refl

  drain_waits :
      (k : ℕ) (entry text buffer zs : List ℕ) (s : S)
      → IsMessage entry_size (entry, text)
      → entry ++ (text ++ (0 ∷ [])) ≡ buffer ++ zs
      → length buffer < length entry + length text + 1
      → drain_loop f entry_size k buffer s ≡ (s, buffer)
  unfolding drain_loop
  drain_waits zero entry text buffer zs s m e cut = refl
  drain_waits (suc k) entry text buffer zs s (size, clean, small) e cut =
      elim (Bool-cases (ltb (length buffer) entry_size)) [
        | inl few ↦ rw few (if_same (length buffer == 0))
        | inr many ↦
            let (w, g, h) =
              append_cut buffer zs entry (text ++ (0 ∷ [])) (sym e) (ground (arith, many, size)) in
            let n : strnlen (drop entry_size buffer) ≡ length w =
              ap strnlen (ap (drop entry_size) g ∙ drop_front entry w entry_size (sym size))
              ∙ strnlen-part w zs text clean h
                  (omega (arith, ap length g, length-append entry w)) in
            let c : leb (length buffer - entry_size) (strnlen (drop entry_size buffer)) ≡ true =
              ground (arith, n, ap length g, length-append entry w, size) in
            rw (many, c) (if_same (length buffer == 0))
      ]

  drain_nothing :
      (k : ℕ) (buffer : List ℕ) (s : S)
      → length buffer ≡ 0
      → drain_loop f entry_size k buffer s ≡ (s, buffer)
  unfolding drain_loop
  drain_nothing zero buffer s e = refl
  drain_nothing (suc k) [] s e = refl
  drain_nothing (suc k) (c ∷ cs) s e = absurd (omega arith)

  Drained-cut :
      (k : ℕ) (m : Message) (ms : List Message) (buffer stream : List ℕ) (s : S)
      → IsMessage entry_size m
      → buffer ++ stream ≡ frames (m ∷ ms)
      → length buffer < length (log_message m)
      → Drained f (m ∷ ms) stream s (drain_loop f entry_size k buffer s)
  Drained-cut k (entry, text) ms buffer stream s (size, clean, small) e cut =
      let (zs, g, h) =
        append_cut (log_message (entry, text)) (frames ms) buffer stream (sym e)
          (omega (arith, cut)) in
      let whole = log_message_small entry text small in
      let waits =
        drain_waits k entry text buffer zs s (size, clean, small) (sym whole ∙ g)
          (omega (
            arith,
            cut,
            ap length whole,
            length-append entry (text ++ (0 ∷ [])),
            length-append text (0 ∷ []),
          )) in
      rw waits (record {
        gone = [];
        left = (entry, text) ∷ ms;
        all = refl;
        state = refl;
        bytes = e;
        cut = cut;
      })

  -- What is drained behind a first message.
  Drained-more :
      (m : Message) (ms : List Message) (stream : List ℕ) (s : S) (r : S × List ℕ)
      → Drained f ms stream (f m s) r
      → Drained f (m ∷ ms) stream s r
  Drained-more m ms stream s r d = record {
    gone = m ∷ d.gone;
    left = d.left;
    all = ap (λ l. m ∷ l) d.all;
    state = d.state;
    bytes = d.bytes;
    cut = d.cut;
  }

  drain_whole :
      (k : ℕ) (m : Message) (zs : List ℕ) (s : S)
      → IsMessage entry_size m
      → drain_loop f entry_size (suc k) (log_message m ++ zs) s
        ≡ drain_loop f entry_size k zs (f m s)
  drain_whole k (entry, text) zs s (size, clean, small) =
      ap (λ l. drain_loop f entry_size (suc k) l s)
        (ap (λ l. l ++ zs) (log_message_small entry text small)
          ∙ append_assoc entry (text ++ (0 ∷ [])) zs
          ∙ ap (λ l. entry ++ l) (append_assoc text (0 ∷ []) zs))
      ∙ drain_step k entry text zs s (size, clean, small)

  -- With fuel for every byte the loop takes each message that is complete, and no other.
  pub drain_loop_lem :
      (ms : List Message) (k : ℕ) (buffer stream : List ℕ) (s : S)
      → AreMessages entry_size ms
      → buffer ++ stream ≡ frames ms
      → length buffer ≤ k
      → Drained f ms stream s (drain_loop f entry_size k buffer s)
  drain_loop_lem [] k buffer stream s are e fuel =
      let none_left : length buffer ≡ 0 = omega (arith, ap length e, length-append buffer stream) in
      rw (drain_nothing k buffer s none_left)
        (record { gone = []; left = []; all = refl; state = refl; bytes = e; cut = none_left })
  drain_loop_lem (m ∷ ms) zero buffer stream s (is, are) e fuel =
      Drained-cut zero m ms buffer stream s is e (omega (arith, fuel, log_message_room m))
  drain_loop_lem (m ∷ ms) (suc k) buffer stream s (is, are) e fuel =
      elim (Bool-cases (ltb (length buffer) (length (log_message m)))) [
        | inl cut ↦ Drained-cut (suc k) m ms buffer stream s is e (ground (arith, cut))
        | inr whole ↦
            let (zs, g, h) =
              append_cut buffer stream (log_message m) (frames ms) e (ground (arith, whole)) in
            let size : length buffer ≡ length (log_message m) + length zs =
              ap length g ∙ length-append (log_message m) zs in
            rw (g, drain_whole k m zs s is)
              (Drained-more m ms stream s _ (
                drain_loop_lem ms k zs stream (f m s) are h
                  (omega (arith, fuel, size, log_message_room m))))
      ]
