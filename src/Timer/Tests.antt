-- ===== src/Timer/Tests.antt =====
-- The properties of the timers at a manager with a recurring timer and one that fires once.
use routn.Base.{
  ℕ, arith, ◌-◌, ◌≤◌, ◌≡◌, refl, true, false, not, ◌&&◌, ◌||◌, some, ◌==◌, if◌then◌else◌,
}
use routn.Timer.{
  TimerManager, call, has_callback, add64, sub64, timer_manager, add_timer, cancel, reset,
  list_expired_cb, get_next_timer, insert_timer, insert,
}
use routn.Timer.OrderedSet.{contains}
use routn.Timer.Invariant.{
  IsValid, timer_manager-IsValid, add_timer_result, cancel_result, reset_result,
}
use routn.Timer.Firing.{Fired}
use routn.Timer.Rollover.{expired_at, time_seen}
use routn.Timer.Expiry.{list_expired_cb_result, get_next_timer_result}

abbrev start : TimerManager
start = timer_manager 1000

abbrev one : TimerManager
one = add_timer 1 50 (some (call 7)) true 1000 start

abbrev two : TimerManager
two = add_timer 2 30 (some (call 8)) false 1010 one

start_free : (a : ℕ) → has_callback (start.objects a) ≡ false
unfolding timer_manager
start_free a = refl

one-IsValid : IsValid one
one-IsValid =
    (add_timer_result 1 50 (call 7) true 1000 start (timer_manager-IsValid 1000) (start_free 1)).0

one_free : has_callback (one.objects 2) ≡ false
unfolding add_timer insert_timer timer_manager
one_free = refl

two-IsValid : IsValid two
two-IsValid = (add_timer_result 2 30 (call 8) false 1010 one one-IsValid one_free).0

two_free : has_callback (two.objects 3) ≡ false
unfolding add_timer insert_timer timer_manager
two_free = refl

two_armed : contains 1 two.timers ≡ true
unfolding contains add_timer insert_timer timer_manager insert
two_armed = refl

cancel_result_example :
    (n : TimerManager) × (cancel 1 two ≡ some (n, has_callback (two.objects 1)))
    × IsValid n
    × ((b : ℕ) → contains b n.timers ≡ (not (1 == b) && contains b two.timers))
cancel_result_example = cancel_result 1 two two-IsValid

reset_result_example :
    IsValid (reset 1 80 false 1020 two).0
    × ((reset 1 80 false 1020 two).1
        ≡ (((80 == (two.objects 1).ms) && not false) || has_callback (two.objects 1)))
    × ((b : ℕ) → contains b (reset 1 80 false 1020 two).0.timers ≡ contains b two.timers)
    × (((reset 1 80 false 1020 two).0.objects 1).next ≡ (
        if has_callback (two.objects 1) && not ((80 == (two.objects 1).ms) && not false)
        then add64 (if false then 1020 else sub64 (two.objects 1).next (two.objects 1).ms) 80
        else (two.objects 1).next))
reset_result_example = reset_result 1 two two-IsValid 80 false 1020

list_expired_cb_result_example :
    Fired 1045
      (expired_at 1045 two)
      two
      (list_expired_cb 3 1045 two).0
      (list_expired_cb 3 1045 two).1
    × ((list_expired_cb 3 1045 two).0.previous_time ≡ time_seen 1045 two)
unfolding add_timer insert_timer timer_manager
list_expired_cb_result_example =
    list_expired_cb_result 3 1045 two two-IsValid two_free (omega arith)

get_next_timer_result_example :
    ((get_next_timer 1020 two).1 ≤ (two.objects 1).next - 1020)
    × ((b : ℕ) × (contains b two.timers ≡ true)
        × ((get_next_timer 1020 two).1 ≡ (two.objects b).next - 1020))
get_next_timer_result_example = get_next_timer_result 1 1020 two two-IsValid two_armed
