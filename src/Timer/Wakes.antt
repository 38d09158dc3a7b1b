-- ===== src/Timer/Wakes.antt =====
-- The loop of the clock interrupt of timer.c leaves the ticks and the frequency alone.
use curnel.Prelude.{ℕ, zero, suc, ◌+◌, ◌≡◌, ◌∙◌, refl, ◌&&◌, Option, none, some, leb, if_both}
use curnel.Kernel.{ready, Kernel, entry, update}
use curnel.Process.{is_sleeping, get_process}
use curnel.Timer.{wake_found, wake_pid, wake_sleepers}

wake_turn-frequency :
    (k : Kernel) (o : Option ℕ) → (wake_found k o).timer_frequency ≡ k.timer_frequency
wake_turn-frequency k none = refl
wake_turn-frequency k (some j) =
    if_both (λ k'. k'.timer_frequency ≡ k.timer_frequency)
      (is_sleeping (entry k j).state && leb (entry k j).sleep_until k.timer_ticks)
      (update k j (λ p. record p { state = ready })) k refl refl

pub wake_sleepers-frequency :
    (left i : ℕ) (k : Kernel) → (wake_sleepers left i k).timer_frequency ≡ k.timer_frequency
unfolding wake_sleepers
wake_sleepers-frequency zero i k = refl
wake_sleepers-frequency (suc left) i k =
    wake_sleepers-frequency left (i + 1) (wake_pid i k) ∙ wake_turn-frequency k (get_process k i)

wake_turn-ticks : (k : Kernel) (o : Option ℕ) → (wake_found k o).timer_ticks ≡ k.timer_ticks
wake_turn-ticks k none = refl
wake_turn-ticks k (some j) =
    if_both (λ k'. k'.timer_ticks ≡ k.timer_ticks)
      (is_sleeping (entry k j).state && leb (entry k j).sleep_until k.timer_ticks)
      (update k j (λ p. record p { state = ready })) k refl refl

pub wake_sleepers-ticks :
    (left i : ℕ) (k : Kernel) → (wake_sleepers left i k).timer_ticks ≡ k.timer_ticks
unfolding wake_sleepers
wake_sleepers-ticks zero i k = refl
wake_sleepers-ticks (suc left) i k =
    wake_sleepers-ticks left (i + 1) (wake_pid i k) ∙ wake_turn-ticks k (get_process k i)
