-- ===== src/Events/Signals.antt =====
-- The dispatch of signals (common/event.c). A signal event is known by its number, as by its address.
-- event_signal_new gives no event for which the assertions on its signal would fail.
use cml.Prelude.{
  ℕ, zero, suc, Bool, true, false, not, ◌&&◌, Option, none, some, List, [], ◌∷◌, ◌++◌, ltb, ◌==◌,
  if◌then◌else◌, ◌>>=◌,
}
use cml.Events.Timers.{remove_first}

-- struct event_signal
pub record Signal : Type 0 where
  pub signum : ℕ
  pub todo : Bool

-- The events that exist, event_signal_list, the two arrays of received signals, and whether
-- event_signal_received is the second of these
pub record Dispatch : Type 0 where
  pub signal : ℕ → Signal
  pub list : List ℕ
  pub received0 : ℕ → Bool
  pub received1 : ℕ → Bool
  pub second : Bool

abbrev pub put_signal : ℕ → Signal → Dispatch → Dispatch
put_signal i t s = record s { signal = λ j. if j == i then t else s.signal j }

abbrev pub set_array : ℕ → (ℕ → Bool) → ℕ → Bool
set_array x f y = if y == x then true else f y

-- event_signal_new; nsig is NSIG, and there is always a function to call.
unfoldable pub event_signal_new : ℕ → ℕ → Option Signal
event_signal_new nsig signum =
    if not (ltb 0 signum)
    then none
    else if not (ltb signum nsig)
    then none
    else some (record { signum = signum; todo = false })

unfoldable pub event_add_signal : ℕ → Dispatch → Dispatch
event_add_signal i s = record s { list = s.list ++ i ∷ [] }

unfoldable pub event_remove_signal : ℕ → Dispatch → Dispatch
unfolding remove_first
event_remove_signal i s = record s { list = remove_first i s.list }

-- event_sa_handler
unfoldable pub event_sa_handler : ℕ → ℕ → Dispatch → Dispatch
event_sa_handler nsig signum s =
    if not (ltb signum nsig)
    then s
    else if s.second
    then record s { received1 = set_array signum s.received1 }
    else record s { received0 = set_array signum s.received0 }

-- The array that is not written to
abbrev pub pending : Dispatch → ℕ → Bool
pending s = if s.second then s.received0 else s.received1

-- The marks on all events before any is handled
unfoldable pub mark_all : List ℕ → Dispatch → Dispatch
mark_all [] s = s
mark_all (i ∷ is) s = mark_all is (put_signal i (record (s.signal i) { todo = true }) s)

-- One event handled; `call` is what its function does, signals that arrive meanwhile included.
unfoldable pub handle_signal : (ℕ → Dispatch → Dispatch) → ℕ → Dispatch → Dispatch
handle_signal call i s = call i (put_signal i (record (s.signal i) { todo = false }) s)

-- The second loop of event_signal_handler, with one step of fuel for each event that it looks at; behind
-- an event that is handled it starts at the head again.
unfoldable pub signal_loop : ℕ → (ℕ → Dispatch → Dispatch) → Dispatch → List ℕ → Option Dispatch
unfolding handle_signal
signal_loop k call s [] = some s
signal_loop zero call s (i ∷ is) = none
signal_loop (suc k) call s (i ∷ is) =
    let s' = handle_signal call i s in
    let again = signal_loop k call s' s'.list in
    let rest = signal_loop k call s is in
    if (s.signal i).todo && pending s (s.signal i).signum then again else rest

-- The loop that clears the array below nsig
abbrev pub cleared : ℕ → (ℕ → Bool) → ℕ → Bool
cleared nsig f x = if ltb x nsig then false else f x

unfoldable pub clear_pending : ℕ → Dispatch → Dispatch
clear_pending nsig s = record s {
  received0 = if s.second then cleared nsig s.received0 else s.received0;
  received1 = if s.second then s.received1 else cleared nsig s.received1;
}

-- event_signal_handler
unfoldable pub event_signal_handler : ℕ → ℕ → (ℕ → Dispatch → Dispatch) → Dispatch → Option Dispatch
unfolding mark_all signal_loop clear_pending
event_signal_handler nsig k call s =
    let s' = mark_all s.list (record s { second = not s.second }) in
    signal_loop k call s' s'.list >>= λ s''. some (clear_pending nsig s'')
