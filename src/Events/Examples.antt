-- ===== src/Events/Examples.antt =====
-- Timers and signals at concrete times (common/event.c).
use cml.Prelude.{
  ℕ, ltb, if◌then◌else◌, length, inr, false, ◌≤◌, ◌≡◌, refl, pos, minus_one, true, some, [], ◌∷◌,
  All, any, arith, ◌==◌,
}
use cml.Events.Time.{Timespec, nanos}
use cml.Events.Timers.{Timer, Loop, event_timeout, event_timeout_handler, event_remove_timer}
use cml.Events.Timeout.{due, EndsAt, event_timeout_lem}
use cml.Events.Weight.{AllSane, remove-Lighter, length-remove_first}
use cml.Events.Expiry.{NoneDue, Tame, event_timeout_handler-NoneDue}
use cml.Events.Signals.{Dispatch, pending, event_remove_signal, event_signal_handler}
use cml.Events.Dispatched.{Calm, Done, event_signal_handler-Done}
use cml.Events.Endless.{no_time}

abbrev at_nanos : ℕ → Timespec
at_nanos n = record { sec = 5; nsec = n }

-- Every timer comes once a second, next at 5 s and 20 ns.
abbrev each_second : Timer
each_second = record {
  diff = record { sec = 1; nsec = 0 };
  next = at_nanos 20;
  repeat = minus_one;
  repeated = minus_one;
}

abbrev two_timers : Loop
two_timers = record { timer = λ i. each_second; list = 1 ∷ 2 ∷ [] }

two_timers-Sane : AllSane two_timers
two_timers-Sane i = ground arith

event_timeout_lem_example :
    (ms m : ℕ) × (event_timeout (at_nanos 10) two_timers ≡ pos ms)
    × All (λ j. m ≤ due two_timers j) (1 ∷ 2 ∷ [])
    × ((j : ℕ) × (any (λ x. j == x) (1 ∷ 2 ∷ []) ≡ true) × (m ≡ due two_timers j))
    × EndsAt (nanos (at_nanos 10)) ms m
event_timeout_lem_example =
    event_timeout_lem (at_nanos 10) two_timers 1 (2 ∷ []) refl (omega arith)
      (omega arith, (omega arith, tt))

-- Each timer's function removes timer 2.
remove_two-Tame : Tame (at_nanos 25) (λ i. event_remove_timer 2)
remove_two-Tame i s h = remove-Lighter (at_nanos 25) 2 s h

event_timeout_handler-NoneDue_example :
    (s' : Loop) × (event_timeout_handler 32 (at_nanos 25) (λ i. event_remove_timer 2) two_timers
      ≡ some s')
    × NoneDue (at_nanos 25) s' s'.list
event_timeout_handler-NoneDue_example =
    event_timeout_handler-NoneDue (at_nanos 25) (λ i. event_remove_timer 2) (omega arith)
      remove_two-Tame 32 two_timers two_timers-Sane (omega arith)

-- A timer without an interval
abbrev at_once_timer : Timer
at_once_timer = record {
  diff = no_time;
  next = at_nanos 20;
  repeat = minus_one;
  repeated = minus_one;
}

abbrev busy_loop : Loop
busy_loop = record { timer = λ i. at_once_timer; list = 1 ∷ [] }

-- An event for signal 15, which has arrived, and one for signal 17; the function of each removes the
-- second.
abbrev two_events : Dispatch
two_events = record {
  signal = λ i. record { signum = (if i == 1 then 15 else 17); todo = false };
  list = 1 ∷ 2 ∷ [];
  received0 = λ x. x == 15;
  received1 = λ x. false;
  second = false;
}

remove_second-Calm : (i : ℕ) (s : Dispatch) → length s.list ≤ 2 → Calm 2 s (event_remove_signal 2 s)
unfolding event_remove_signal
remove_second-Calm i s l = record {
  unmarked = λ j. omega arith;
  short = omega (arith, l, length-remove_first 2 s.list);
  second = refl;
  array = λ x. refl;
}

event_signal_handler-Done_example :
    (s' : Dispatch) × (event_signal_handler 65 8 (λ i. event_remove_signal 2) two_events ≡ some s')
    × (s'.second ≡ true)
    × ((x : ℕ) → pending s' x ≡ (if ltb x 65 then false else (x == 15)))
    × All (Done s' (λ x. x == 15)) s'.list
event_signal_handler-Done_example =
    event_signal_handler-Done (1 ∷ 2 ∷ []) 2 (λ i. event_remove_signal 2) remove_second-Calm 65 8
      two_events (λ j. inr refl) (refl, (refl, tt)) (omega arith) (omega arith)
