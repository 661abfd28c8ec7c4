-- ===== src/Writer/Bytes.antt =====
-- writer.c: the bytes that a recipient has and will get.
use daemonlib.Base.{
  ℕ, zero, suc, ◌+◌, ◌≤◌, ◌≡◌, refl, sym, ap, ◌∙◌, List, [], ◌∷◌, ◌++◌, append_assoc, take, drop,
  length, take-append-drop, arith,
}
use daemonlib.Writer.{PartialPacket, Writer, finish_first}

-- The bytes that the backlog still holds.
abbrev pub pending : List PartialPacket → List ℕ
pending [] = []
pending (p ∷ ps) = drop p.written p.packet ++ pending ps

-- What the recipient has and will get.
abbrev pub stream : Writer → List ℕ
stream w = w.sent ++ pending w.backlog

abbrev no_bytes : List ℕ
no_bytes = []

drop_nil : (n : ℕ) → drop n no_bytes ≡ no_bytes
drop_nil zero = refl
drop_nil (suc n) = refl

drop-drop : (n k : ℕ) (xs : List ℕ) → drop (n + k) xs ≡ drop k (drop n xs)
drop-drop zero k xs = let e : 0 + k ≡ k = omega arith in rw e refl
drop-drop (suc n) k [] = drop_nil (suc n + k) ∙ sym (drop_nil k)
drop-drop (suc n) k (x ∷ xs) =
    let e : suc n + k ≡ suc (n + k) = omega arith in rw e (drop-drop n k xs)

pub drop_more : (n k : ℕ) (xs : List ℕ) → take k (drop n xs) ++ drop (n + k) xs ≡ drop n xs
drop_more n k xs = rw (drop-drop n k xs) (take-append-drop k (drop n xs))

drop_all : (n : ℕ) (xs : List ℕ) → length xs ≤ n → drop n xs ≡ []
drop_all zero [] le = refl
drop_all zero (x ∷ xs) le = absurd (omega arith)
drop_all (suc n) [] le = refl
drop_all (suc n) (x ∷ xs) le = drop_all n xs (omega arith)

pub finish_first-stream :
    (p : PartialPacket) (ps : List PartialPacket) (w : Writer)
    → stream (finish_first p ps w) ≡ w.sent ++ (drop p.written p.packet ++ pending ps)
unfolding finish_first
finish_first-stream p ps w = ground (arith, drop_all p.written p.packet)

pub pending-append : (ps qs : List PartialPacket) → pending (ps ++ qs) ≡ pending ps ++ pending qs
pending-append [] qs = refl
pending-append (p ∷ ps) qs =
    ap (λ l. drop p.written p.packet ++ l) (pending-append ps qs)
    ∙ sym (append_assoc (drop p.written p.packet) (pending ps) (pending qs))
