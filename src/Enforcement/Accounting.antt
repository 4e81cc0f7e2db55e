-- ===== src/Enforcement/Accounting.antt =====
-- What the counters of src/enforcement.rs count, whatever becomes of the kernel's tables.
use egressy.Base.{ℕ, ◌+◌, ◌-◌, ◌≤◌, ◌≡◌, List, [], ◌∷◌, arith, leb, if◌then◌else◌, u64_max}
use egressy.Enforcement.Counters.{CounterAccumulator, no_count, observe, seed}

-- What happens to one counter of the kernel: packets pass, it is read, it is read and its table is
-- replaced by one that starts at the total, or someone else resets it. What passes between the
-- reading and the replacement is lost.
pub data Happening : Type 0 where
  passes : ℕ → Happening
  reads : Happening
  replaces : ℕ → Happening
  resets : Happening

-- The counter of the kernel, the accumulator, all that passed and what of it was lost.
pub record Ledger : Type 0 where
  pub raw : ℕ
  pub accumulator : CounterAccumulator
  pub passed : ℕ
  pub lost : ℕ

abbrev pub opened : Ledger
opened = record { raw = 0; accumulator = no_count; passed = 0; lost = 0 }

unfoldable pub happen : Happening → Ledger → Ledger
unfolding observe seed
happen (passes n) l = record l { raw = l.raw + n; passed = l.passed + n }
happen reads l = record l { accumulator = observe l.raw l.accumulator }
happen (replaces n) l =
    let a = seed (observe l.raw l.accumulator) in
    record { raw = a.total; accumulator = a; passed = l.passed + n; lost = l.lost + n }
happen resets l = record l {
  raw = 0;
  lost =
      l.lost + (if leb l.accumulator.last_raw l.raw then l.raw - l.accumulator.last_raw else l.raw);
}

unfoldable pub happenings : List Happening → Ledger → Ledger
unfolding happen
happenings [] l = l
happenings (h ∷ hs) l = happenings hs (happen h l)

-- No reset by others happens.
abbrev pub IsOurs : List Happening → Type 0
IsOurs [] = Unit
IsOurs (resets ∷ hs) = ⊥
IsOurs (_ ∷ hs) = IsOurs hs

-- What is not read yet.
abbrev pub unread : Ledger → ℕ
unread l = if leb l.accumulator.last_raw l.raw then l.raw - l.accumulator.last_raw else l.raw

IsBounded : Ledger → Type 0
IsBounded l = l.accumulator.total + unread l ≤ l.passed

happen-IsBounded : (h : Happening) (l : Ledger) → IsBounded l → IsBounded (happen h l)
unfolding happen IsBounded
happen-IsBounded (passes n) l b = ground arith
happen-IsBounded reads l b = ground arith
happen-IsBounded (replaces n) l b = ground arith
happen-IsBounded resets l b = ground arith

happenings-IsBounded :
    (hs : List Happening) (l : Ledger) → IsBounded l → IsBounded (happenings hs l)
unfolding happenings
happenings-IsBounded [] l b = b
happenings-IsBounded (h ∷ hs) l b = happenings-IsBounded hs (happen h l) (happen-IsBounded h l b)

-- Whatever happens to the kernel's counter, the total is never above what passed.
pub total_never_over :
    (hs : List Happening) → (happenings hs opened).accumulator.total ≤ (happenings hs opened).passed
unfolding IsBounded
total_never_over hs = ground (arith, happenings-IsBounded hs opened (omega arith))

record IsExact (l : Ledger) : Type 0 where
  behind : l.accumulator.last_raw ≤ l.raw
  balance : l.accumulator.total + (l.raw - l.accumulator.last_raw) + l.lost ≡ l.passed

happen-IsExact :
    (h : Happening) (l : Ledger)
    → IsOurs (h ∷ [])
    → (happen h l).passed ≤ u64_max
    → IsExact l
    → IsExact (happen h l)
unfolding happen
happen-IsExact (passes n) l ours small e = record {
  behind = omega (arith, e.behind);
  balance = omega (arith, e.behind, e.balance);
}
happen-IsExact reads l ours small e = record {
  behind = ground (arith, e.behind, e.balance);
  balance = ground (arith, e.behind, e.balance);
}
happen-IsExact (replaces n) l ours small e = record {
  behind = ground (arith, e.behind, e.balance);
  balance = ground (arith, e.behind, e.balance);
}
happen-IsExact resets l ours small e = absurd ours

passed-happen-le : (h : Happening) (l : Ledger) → l.passed ≤ (happen h l).passed
unfolding happen
passed-happen-le (passes n) l = omega arith
passed-happen-le reads l = omega arith
passed-happen-le (replaces n) l = omega arith
passed-happen-le resets l = omega arith

passed-happenings-le : (hs : List Happening) (l : Ledger) → l.passed ≤ (happenings hs l).passed
unfolding happenings
passed-happenings-le [] l = omega arith
passed-happenings-le (h ∷ hs) l =
    omega (arith, passed-happen-le h l, passed-happenings-le hs (happen h l))

IsOurs-cons : (h : Happening) (hs : List Happening) → IsOurs (h ∷ hs) → IsOurs (h ∷ []) × IsOurs hs
IsOurs-cons (passes n) hs ours = (tt, ours)
IsOurs-cons reads hs ours = (tt, ours)
IsOurs-cons (replaces n) hs ours = (tt, ours)
IsOurs-cons resets hs ours = absurd ours

happenings-IsExact :
    (hs : List Happening) (l : Ledger)
    → IsOurs hs
    → (happenings hs l).passed ≤ u64_max
    → IsExact l
    → IsExact (happenings hs l)
unfolding happenings
happenings-IsExact [] l ours small e = e
happenings-IsExact (h ∷ hs) l ours small e =
    let (here, rest) = IsOurs-cons h hs ours in
    happenings-IsExact hs (happen h l) rest small
      (happen-IsExact h l here (omega (arith, passed-happenings-le hs (happen h l), small)) e)

-- Unless someone else resets the kernel's counter or a u64 is full, after a reading the total is
-- what passed less what was lost between a reading and the replacement of the table after it.
pub total_exact :
    (hs : List Happening)
    → IsOurs hs
    → (happenings hs opened).passed ≤ u64_max
    → let l = happen reads (happenings hs opened) in l.accumulator.total + l.lost ≡ l.passed
unfolding happen
total_exact hs ours small =
    let e =
      happenings-IsExact hs opened ours small
        (record { behind = omega arith; balance = omega arith }) in
    ground (arith, e.behind, e.balance)
