-- ===== src/Timer.antt =====
-- timer.c: the clock interrupt, which wakes sleeping processes and calls the scheduler. The static
-- `timer_callback` is a parameter of `timer_handler`, the identity for none.
pub mod Wakes
pub mod Sleepers
mod Tests
use curnel.Prelude.{
  ℕ, zero, suc, ◌+◌, ◌*◌, ◌/◌, ◌%◌, Bool, true, false, ◌&&◌, Option, none, some, List, [], ◌∷◌, ltb,
  leb, ◌==◌, if◌then◌else◌, u64, u32,
}
use curnel.Kernel.{
  ready, sleeping, max_processes, Kernel, entry, update, Outcome, done, no_fuel, stray, ◌>>=◌,
}
use curnel.Process.{is_sleeping, get_process, get_current_process}
use curnel.Scheduler.{schedule}

abbrev pit_base_freq : ℕ
pit_base_freq = 1193182

abbrev clamp_frequency : ℕ → ℕ
clamp_frequency frequency =
    if ltb frequency 1 then 1 else if ltb 1193 frequency then 1193 else frequency

-- The state after the call, and the writes to ports, each a port with a byte.
unfoldable pub timer_init : Kernel → ℕ → Kernel × List (ℕ × ℕ)
timer_init k frequency =
    let divisor = pit_base_freq / clamp_frequency frequency in
    (
      record k { timer_frequency = clamp_frequency frequency; timer_ticks = 0 },
      (67, 54) ∷ (64, divisor % 256) ∷ (64, divisor / 256 % 256) ∷ [],
    )

timer_get_ticks : Kernel → ℕ
timer_get_ticks k = k.timer_ticks

-- The callback in force, before and after the call.
timer_register_callback : (ℕ → Kernel → Kernel) → (ℕ → Kernel → Kernel) → ℕ → Kernel → Kernel
timer_register_callback old callback = callback

-- The body of the loop of `timer_handler`, for what `get_process` gives.
abbrev pub wake_found : Kernel → Option ℕ → Kernel
wake_found k none = k
wake_found k (some j) =
    if is_sleeping (entry k j).state && leb (entry k j).sleep_until k.timer_ticks
    then update k j (λ p. record p { state = ready })
    else k

-- One turn of the loop: `i` is used as a pid.
abbrev pub wake_pid : ℕ → Kernel → Kernel
wake_pid i k = wake_found k (get_process k i)

pub wake_sleepers : ℕ → ℕ → Kernel → Kernel
wake_sleepers zero i k = k
wake_sleepers (suc left) i k = wake_sleepers left (i + 1) (wake_pid i k)

module _ (call_handler : ℕ → ℕ → Kernel → Kernel) (n : ℕ) where
  pub timer_handler : (ℕ → Kernel → Kernel) → Kernel → Outcome Kernel
  timer_handler timer_callback k =
      let k = record k { timer_ticks = u64 (k.timer_ticks + 1) } in
      let k = timer_callback k.timer_ticks k in
      let k = wake_sleepers max_processes 0 k in
      if k.timer_frequency / 100 == 0
      then stray
      else if k.timer_ticks % (k.timer_frequency / 100) == 0
      then schedule call_handler n k
      else done k

  -- The ticks for `ms`, in 32-bit arithmetic.
  abbrev ticks_of : Kernel → ℕ → ℕ
  ticks_of k ms = u32 (k.timer_frequency * ms) / 1000

  -- The waiting loop of `timer_sleep`; `interrupt` is what happens at `sti; hlt`.
  sleep_until_tick : (Kernel → Outcome Kernel) → ℕ → ℕ → Kernel → Outcome Kernel
  sleep_until_tick interrupt zero target k = no_fuel
  sleep_until_tick interrupt (suc f) target k = elim (ltb k.timer_ticks target) [
    | true ↦ interrupt k >>= λ k'. sleep_until_tick interrupt f target k'
    | false ↦ done k
  ]

  timer_sleep : (Kernel → Outcome Kernel) → ℕ → Kernel → ℕ → Outcome Kernel
  timer_sleep interrupt f k ms =
      let ticks = if ticks_of k ms == 0 then 1 else ticks_of k ms in
      sleep_until_tick interrupt f (u64 (k.timer_ticks + ticks)) k

  pub process_sleep : (Kernel → Outcome Kernel) → ℕ → Kernel → ℕ → Outcome Kernel
  process_sleep interrupt f k ms = elim (get_current_process k) [
    | none ↦ timer_sleep interrupt f k ms
    | some c ↦ schedule call_handler n (
        update k c
          (λ p. record p { sleep_until = u64 (k.timer_ticks + ticks_of k ms); state = sleeping }))
  ]
