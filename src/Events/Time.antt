-- ===== src/Events/Time.antt =====
-- The arithmetic on points in time (the timespec macros of common/event.c).
use cml.Prelude.{
  ℕ, suc, ◌+◌, ◌-◌, ◌*◌, ◌≤◌, ◌<◌, ◌≡◌, ◌↔◌, Bool, true, arith, ltb, leb, ◌==◌, if◌then◌else◌,
}

abbrev pub giga : ℕ
giga = 1000000000

-- struct timespec, which the clock and the intervals keep at or above 0
pub record Timespec : Type 0 where
  pub sec : ℕ
  pub nsec : ℕ

-- timespec_cmp with < and with >
unfoldable pub timespec_lt : Timespec → Timespec → Bool
timespec_lt a b = if a.sec == b.sec then ltb a.nsec b.nsec else ltb a.sec b.sec

unfoldable pub timespec_gt : Timespec → Timespec → Bool
timespec_gt a b = if a.sec == b.sec then ltb b.nsec a.nsec else ltb b.sec a.sec

-- timespec_add
unfoldable pub timespec_add : Timespec → Timespec → Timespec
timespec_add a b =
    if leb giga (a.nsec + b.nsec)
    then record { sec = suc (a.sec + b.sec); nsec = a.nsec + b.nsec - giga }
    else record { sec = a.sec + b.sec; nsec = a.nsec + b.nsec }

-- timespec_sub, where the first is not before the second
unfoldable pub timespec_sub : Timespec → Timespec → Timespec
timespec_sub a b =
    if ltb a.nsec b.nsec
    then record { sec = a.sec - b.sec - 1; nsec = giga + a.nsec - b.nsec }
    else record { sec = a.sec - b.sec; nsec = a.nsec - b.nsec }

-- A point in time as nanoseconds
abbrev pub nanos : Timespec → ℕ
nanos t = giga * t.sec + t.nsec

abbrev pub IsNormal : Timespec → Type 0
IsNormal t = t.nsec < giga

pub timespec_lt-nanos :
    (a b : Timespec) → IsNormal a → IsNormal b → (timespec_lt a b ≡ true) ↔ (nanos a < nanos b)
unfolding timespec_lt
timespec_lt-nanos a b m n = ground arith

pub timespec_gt-nanos :
    (a b : Timespec) → IsNormal a → IsNormal b → (timespec_gt a b ≡ true) ↔ (nanos b < nanos a)
unfolding timespec_gt
timespec_gt-nanos a b m n = ground arith

pub timespec_add-nanos :
    (a b : Timespec)
    → IsNormal a
    → IsNormal b
    → IsNormal (timespec_add a b) × (nanos (timespec_add a b) ≡ nanos a + nanos b)
unfolding timespec_add
timespec_add-nanos a b m n = ground arith

pub timespec_sub-nanos :
    (a b : Timespec)
    → IsNormal a
    → IsNormal b
    → nanos b ≤ nanos a
    → IsNormal (timespec_sub a b) × (nanos (timespec_sub a b) + nanos b ≡ nanos a)
unfolding timespec_sub
timespec_sub-nanos a b m n l = ground arith
