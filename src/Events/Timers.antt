-- ===== src/Events/Timers.antt =====
-- The timers of the event loop (common/event.c). A timer is known by its number, as by its address: the
-- list of timers holds numbers, and a timer may stand in it more than once.
use cml.Prelude.{
  ℕ, zero, suc, ◌+◌, ◌*◌, ◌/◌, ◌%◌, ℤ, pos, negsuc, minus_one, ◌==ℤ◌, Option, none, some, List, [],
  ◌∷◌, ◌++◌, ◌==◌, if◌then◌else◌,
}
use cml.Events.Time.{Timespec, timespec_lt, timespec_gt, timespec_add, timespec_sub}

-- struct event_timer
pub record Timer : Type 0 where
  pub diff : Timespec
  pub next : Timespec
  pub repeat : ℤ
  pub repeated : ℤ

-- The timers that exist, and event_timer_list
pub record Loop : Type 0 where
  pub timer : ℕ → Timer
  pub list : List ℕ

abbrev pub put : ℕ → Timer → Loop → Loop
put i t s = record s { timer = λ j. if j == i then t else s.timer j }

-- list_remove on the list of timers
unfoldable pub remove_first : ℕ → List ℕ → List ℕ
remove_first i [] = []
remove_first i (j ∷ is) = if j == i then is else j ∷ remove_first i is

-- event_timer_new; there is always a function to call. The C code leaves `repeated` unset, and
-- event_add_timer sets it.
unfoldable pub event_timer_new : ℤ → ℤ → Option Timer
event_timer_new (negsuc n) repeat = none
event_timer_new (pos timeout) repeat = some (record {
  diff = record { sec = timeout / 1000; nsec = timeout % 1000 * 1000000 };
  next = record { sec = 0; nsec = 0 };
  repeat = repeat;
  repeated = pos 0;
})

-- event_add_timer
unfoldable pub event_add_timer : Timespec → ℕ → Loop → Loop
unfolding timespec_add
event_add_timer now i s =
    let t = s.timer i in
    let s' = put i (record t { next = timespec_add now t.diff; repeated = t.repeat }) s in
    record s' { list = s'.list ++ i ∷ [] }

-- event_remove_timer
unfoldable pub event_remove_timer : ℕ → Loop → Loop
unfolding remove_first
event_remove_timer i s = record s { list = remove_first i s.list }

-- event_timeout: the earliest time
unfoldable pub earliest : Loop → Timespec → List ℕ → Timespec
unfolding timespec_gt
earliest s next [] = next
earliest s next (i ∷ is) =
    earliest s (if timespec_gt next (s.timer i).next then (s.timer i).next else next) is

-- event_timeout for a list of timers, where the wait fits an int
unfoldable pub timeout_of : Timespec → Loop → List ℕ → ℤ
unfolding earliest timespec_lt timespec_sub
timeout_of now s [] = minus_one
timeout_of now s (i ∷ is) =
    let next = earliest s (s.timer i).next is in
    let diff = timespec_sub next now in
    if timespec_lt next now then pos 0 else pos (diff.sec * 1000 + (diff.nsec + 999999) / 1000000)

-- event_timeout
unfoldable pub event_timeout : Timespec → Loop → ℤ
unfolding timeout_of
event_timeout now s = timeout_of now s s.list

unfoldable pub count_down : ℤ → ℤ
count_down (pos (suc n)) = pos n
count_down z = z

-- What event_timeout_handler does with a timer that has expired; `call` is what the functions of the
-- timers do to the timers.
unfoldable pub expire : (ℕ → Loop → Loop) → ℕ → Loop → Loop
unfolding event_remove_timer count_down timespec_add
expire call i s =
    let t = s.timer i in
    let left = count_down t.repeated in
    if t.repeated ==ℤ pos 0
    then event_remove_timer i s
    else if left ==ℤ pos 0
    then call i (event_remove_timer i (put i (record t { repeated = left }) s))
    else call i (put i (record t { repeated = left; next = timespec_add t.diff t.next }) s)

-- The loop of event_timeout_handler from a place of the list on, with one step of fuel for each timer
-- that it looks at; behind an expired timer it starts at the head again.
unfoldable pub timeout_loop : ℕ → Timespec → (ℕ → Loop → Loop) → Loop → List ℕ → Option Loop
unfolding expire timespec_gt
timeout_loop k now call s [] = some s
timeout_loop zero now call s (i ∷ is) = none
timeout_loop (suc k) now call s (i ∷ is) =
    let s' = expire call i s in
    let again = timeout_loop k now call s' s'.list in
    let rest = timeout_loop k now call s is in
    if timespec_gt now (s.timer i).next then again else rest

-- event_timeout_handler
unfoldable pub event_timeout_handler : ℕ → Timespec → (ℕ → Loop → Loop) → Loop → Option Loop
unfolding timeout_loop
event_timeout_handler k now call s = timeout_loop k now call s s.list
