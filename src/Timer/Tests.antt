-- ===== src/Timer/Tests.antt =====
-- The theorems about timer.c with a process that sleeps.
use curnel.Prelude.{◌≡◌, refl, arith, ◌/◌, ◌%◌, ◌==◌, ltb, u64, if◌then◌else◌}
use curnel.Kernel.{Kernel, Process, sleeping, done, entry, update}
use curnel.Process.Table.{update-IsValid}
use curnel.Scheduler.{schedule}
use curnel.Timer.Sleepers.{woken, timer_handler-Wakes}
use curnel.Timer.{timer_handler}
use curnel.Boot.{two_processes, two_processes-IsValid}

-- Process 2 sleeps until tick 1.
abbrev asleep : Process → Process
asleep p = record p { state = sleeping; sleep_until = 1 }

abbrev one_asleep : Kernel
one_asleep = update two_processes 1 asleep

timer_handler-Wakes_example :
    (k' : Kernel) × (timer_handler (λ h s k. k) 200 (λ t k. k) one_asleep ≡ (
      if k'.timer_ticks % (k'.timer_frequency / 100) == 0
      then schedule (λ h s k. k) 200 k'
      else done k'))
    × (entry k' 1 ≡ (
        if ltb (entry one_asleep 1).pid 64
        then woken (u64 1) (entry one_asleep 1)
        else entry one_asleep 1))
    × (k'.timer_ticks ≡ u64 1)
    × (k'.timer_frequency ≡ one_asleep.timer_frequency)
timer_handler-Wakes_example =
    timer_handler-Wakes (λ h s k. k) 200 one_asleep 1
      (update-IsValid two_processes 1 asleep (λ p. refl) (λ p. refl) two_processes-IsValid)
      (omega arith) (omega arith) (omega arith)
