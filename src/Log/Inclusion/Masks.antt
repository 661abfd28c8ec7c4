-- ===== src/Log/Inclusion/Masks.antt =====
-- log.c: setting and clearing bits of the debug groups, checked on all of them.
use daemonlib.Base.{ℕ, ◌^◌, ◌<◌, ◌≡◌, refl, Bool, true, false, not, ◌&&◌, ltb, if◌then◌else◌, arith}
use daemonlib.Base.Table.{check_all, check_all-holds}
use daemonlib.Log.Filter.{all_groups}
use daemonlib.Log.Inclusion.{mask, all_or_none, includes}

-- The five debug groups.
abbrev pub IsGroup : ℕ → Type 0
IsGroup g = (i : ℕ) × (i < 5) × (g ≡ 2 ^ i)

abbrev eqb : Bool → Bool → Bool
eqb true b = b
eqb false b = not b

eqb-eq : (a b : Bool) → eqb a b ≡ true → a ≡ b
eqb-eq true true h = refl
eqb-eq true false h = absurd (ground arith)
eqb-eq false true h = absurd (ground arith)
eqb-eq false false h = refl

-- The groups `m` set or cleared in `x`, seen at the group `g`.
abbrev mask_test : ℕ → ℕ → ℕ → Bool
mask_test g m x =
    eqb (includes (mask true m x) g) (if includes m g then true else includes x g)
    && eqb (includes (mask false m x) g) (if includes m g then false else includes x g)

abbrev bound_test : ℕ → ℕ → Bool
bound_test m x = ltb (mask true m x) 32 && ltb (mask false m x) 32

bound_table : check_all 32 (λ m. check_all 32 (λ x. bound_test m x)) ≡ true
unfolding check_all
bound_table = refl

mask_table : check_all 5 (λ i. check_all 32 (λ m. check_all 32 (λ x. mask_test (2 ^ i) m x))) ≡ true
unfolding check_all
mask_table = refl

bound_holds : (m x : ℕ) → m < 32 → x < 32 → bound_test m x ≡ true
bound_holds m x small few =
    check_all-holds 32 (bound_test m) x
      (check_all-holds 32 (λ k. check_all 32 (bound_test k)) m bound_table small) few

pub mask_bound : (b : Bool) (m x : ℕ) → m < 32 → x < 32 → mask b m x < 32
mask_bound true m x small few = ground (arith, bound_holds m x small few)
mask_bound false m x small few = ground (arith, bound_holds m x small few)

mask_holds : (i m x : ℕ) → i < 5 → m < 32 → x < 32 → mask_test (2 ^ i) m x ≡ true
mask_holds i m x is small few =
    check_all-holds 32 (mask_test (2 ^ i) m) x
      (check_all-holds 32 (λ k. check_all 32 (mask_test (2 ^ i) k)) m
        (check_all-holds 5 (λ j. check_all 32 (λ k. check_all 32 (mask_test (2 ^ j) k))) i
          mask_table is)
        small)
      few

and_true : (a b : Bool) → (a && b) ≡ true → (a ≡ true) × (b ≡ true)
and_true true true h = (refl, refl)
and_true true false h = absurd (ground arith)
and_true false b h = absurd (ground arith)

pub includes-mask :
    (b : Bool) (g m x : ℕ)
    → IsGroup g
    → m < 32
    → x < 32
    → includes (mask b m x) g ≡ (if includes m g then b else includes x g)
includes-mask true g m x (i, is, e) small few =
    rw e (eqb-eq _ _ (and_true _ _ (mask_holds i m x is small few)).0)
includes-mask false g m x (i, is, e) small few =
    rw e (eqb-eq _ _ (and_true _ _ (mask_holds i m x is small few)).1)

not-true : (b : Bool) → not b ≡ true → b ≡ false
not-true true h = absurd (ground arith)
not-true false h = refl

all_table : check_all 5 (λ i. includes all_groups (2 ^ i)) ≡ true
unfolding check_all
all_table = refl

none_table : check_all 5 (λ i. not (includes 0 (2 ^ i))) ≡ true
unfolding check_all
none_table = refl

pub includes-all_or_none : (b : Bool) (g : ℕ) → IsGroup g → includes (all_or_none b) g ≡ b
includes-all_or_none true g (i, is, e) =
    rw e (check_all-holds 5 (λ j. includes all_groups (2 ^ j)) i all_table is)
includes-all_or_none false g (i, is, e) =
    let t = check_all-holds 5 (λ j. not (includes 0 (2 ^ j))) i none_table is in rw e (not-true _ t)
