-- ===== src/Timer/Sleepers.antt =====
-- Which sleeping processes the clock interrupt of timer.c makes ready.
use curnel.Prelude.{
  ℕ, zero, suc, ◌+◌, ◌/◌, ◌%◌, ◌<◌, ◌≤◌, ◌≡◌, ◌≢◌, ◌∙◌, refl, sym, ap, subst, true, false, ◌&&◌,
  inl, inr, none, some, List, length, ltb, leb, ◌==◌, if◌then◌else◌, if_both, Bool-cases,
  Option-cases, ==_iff, get_or-modify_self, get_or-modify_ne, u64, arith,
}
use curnel.Kernel.{ready, max_processes, Process, blank, Kernel, entry, done}
use curnel.Process.{is_sleeping, get_process, find_pid}
use curnel.Process.Table.{
  IsValid, pids, find_in, find_pid-find_in, pids-modify, find_pid-some, find_pid_self,
}
use curnel.Scheduler.{schedule}
use curnel.Timer.{wake_found, wake_pid, wake_sleepers, timer_handler}
use curnel.Timer.Wakes.{wake_sleepers-frequency, wake_sleepers-ticks}

-- A process once the clock has come to `now`.
abbrev pub woken : ℕ → Process → Process
woken now p = if is_sleeping p.state && leb p.sleep_until now then record p { state = ready } else p

woken-pid : (now : ℕ) (p : Process) → (woken now p).pid ≡ p.pid
woken-pid now p =
    if_both (λ q. q.pid ≡ p.pid) (is_sleeping p.state && leb p.sleep_until now)
      (record p { state = ready }) p refl refl

-- The entries but the one at `j` are as before, so are the pids and the clock.
abbrev Touches : ℕ → Kernel → Kernel → Type 0
Touches j k k' =
    (entry k' j ≡ woken k.timer_ticks (entry k j))
    × (pids k'.processes ≡ pids k.processes)
    × (k'.timer_ticks ≡ k.timer_ticks)
    × ((l : ℕ) → j ≢ l → entry k' l ≡ entry k l)

wake_found-Touches :
    (j : ℕ) (k : Kernel) → j < length k.processes → Touches j k (wake_found k (some j))
wake_found-Touches j k inside =
    elim (Bool-cases (is_sleeping (entry k j).state && leb (entry k j).sleep_until k.timer_ticks)) [
      | inr stays ↦ rw stays (refl, refl, refl, λ l far. refl)
      | inl wakes ↦ rw wakes (
        get_or-modify_self k.processes j (λ p. record p { state = ready }) blank inside,
        pids-modify k.processes j (λ p. record p { state = ready }) (λ p. refl),
        refl,
        λ l far. get_or-modify_ne k.processes j l (λ p. record p { state = ready }) blank far,
      )
    ]

wake_pid-some :
    (i j : ℕ) (k : Kernel) → find_pid i k.processes ≡ some j → Touches j k (wake_pid i k)
unfolding get_process
wake_pid-some i j k e =
    subst (λ o. Touches j k (wake_found k o)) (sym e)
      (wake_found-Touches j k (find_pid-some i j k.processes e).0)

wake_pid-none : (i : ℕ) (k : Kernel) → find_pid i k.processes ≡ none → wake_pid i k ≡ k
unfolding get_process
wake_pid-none i k e = ap (wake_found k) e

-- The process at entry `j`, whose pid is `pid`, at one turn.
module _ (pid j : ℕ) where
  same_search :
      (ps qs : List Process)
      → pids qs ≡ pids ps
      → find_pid pid ps ≡ some j
      → find_pid pid qs ≡ some j
  same_search ps qs e h =
      find_pid-find_in pid qs ∙ ap (find_in pid) e ∙ sym (find_pid-find_in pid ps) ∙ h

  turn :
      (i : ℕ) (k : Kernel)
      → find_pid pid k.processes ≡ some j
      → (find_pid pid (wake_pid i k).processes ≡ some j)
        × ((wake_pid i k).timer_ticks ≡ k.timer_ticks)
        × (entry (wake_pid i k) j
            ≡ (if i == pid then woken k.timer_ticks (entry k j) else entry k j))
  turn i k h = elim (Bool-cases (i == pid)) [
    | inl hit ↦
        let same : i ≡ pid = (==_iff i pid).0 hit in
        let (a, b, c, d) = wake_pid-some i j k (ap (λ x. find_pid x k.processes) same ∙ h) in
        rw hit (same_search k.processes (wake_pid i k).processes b h, c, a)
    | inr miss ↦ elim (Option-cases (find_pid i k.processes)) [
      | inl absent ↦
          let e = wake_pid-none i k absent in
          rw miss (
            ap (λ x. find_pid pid x.processes) e ∙ h,
            ap (λ x. x.timer_ticks) e,
            ap (λ x. entry x j) e,
          )
      | inr (l, found) ↦
          let (a, b, c, d) = wake_pid-some i l k found in
          let far : l ≢ j = λ e. ground (
            arith,
            miss,
            (find_pid-some i l k.processes found).1,
            (find_pid-some pid j k.processes h).1,
            ap (λ x. (entry k x).pid) e,
          ) in
          rw miss (same_search k.processes (wake_pid i k).processes b h, c, d j far)
    ]
  ]

  loop :
      (n i : ℕ) (k : Kernel)
      → find_pid pid k.processes ≡ some j
      → entry (wake_sleepers n i k) j
        ≡ (if leb i pid && ltb pid (i + n) then woken k.timer_ticks (entry k j) else entry k j)
  unfolding wake_sleepers
  loop zero i k h =
      let never : (leb i pid && ltb pid (i + 0)) ≡ false = ground arith in rw never refl
  loop (suc n) i k h =
      let (found, clock, at) = turn i k h in
      let ih = loop n (i + 1) (wake_pid i k) found in
      elim (Bool-cases (i == pid)) [
        | inl hit ↦
            let past : (leb (i + 1) pid && ltb pid (i + 1 + n)) ≡ false = ground (arith, hit) in
            let now : (leb i pid && ltb pid (i + suc n)) ≡ true = ground (arith, hit) in
            ih ∙ rw (past, now) (at ∙ rw hit refl)
        | inr miss ↦
            let alike : (leb (i + 1) pid && ltb pid (i + 1 + n))
                ≡ (leb i pid && ltb pid (i + suc n)) =
              ground (arith, miss) in
            ih ∙ rw (alike, clock, at, miss) refl
      ]

module _ (call_handler : ℕ → ℕ → Kernel → Kernel) (n : ℕ) where
  -- With no callback and a frequency of at least 100 Hz, timer_handler calls the scheduler, or returns,
  -- in a state in which each process with a pid below 64 that slept and is due at the new tick is
  -- ready, and every other process is as it was: one with a pid of 64 or more is never woken. The tick is
  -- counted, and the scheduler is called when the tick is a multiple of the frequency divided by 100.
  pub timer_handler-Wakes :
      (k : Kernel) (j : ℕ)
      → IsValid k
      → 100 ≤ k.timer_frequency
      → j < max_processes
      → (entry k j).pid ≢ 0
      → (k' : Kernel) × (timer_handler call_handler n (λ t k. k) k ≡ (
          if k'.timer_ticks % (k'.timer_frequency / 100) == 0
          then schedule call_handler n k'
          else done k'))
        × (entry k' j ≡ (
            if ltb (entry k j).pid 64
            then woken (u64 (k.timer_ticks + 1)) (entry k j)
            else entry k j))
        × (k'.timer_ticks ≡ u64 (k.timer_ticks + 1))
        × (k'.timer_frequency ≡ k.timer_frequency)
  unfolding timer_handler
  timer_handler-Wakes k j valid fast low used =
      let k1 = record k { timer_ticks = u64 (k.timer_ticks + 1) } in
      let k' = wake_sleepers max_processes 0 k1 in
      let quick : (k'.timer_frequency / 100 == 0) ≡ false =
        ground (arith, wake_sleepers-frequency max_processes 0 k1, fast) in
      let reached : (leb 0 (entry k j).pid && ltb (entry k j).pid (0 + max_processes))
          ≡ ltb (entry k j).pid 64 =
        ground arith in
      (
        k',
        rw quick refl,
        loop (entry k j).pid j max_processes 0 k1 (find_pid_self k j valid low used)
            ∙ rw reached refl,
        wake_sleepers-ticks max_processes 0 k1,
        wake_sleepers-frequency max_processes 0 k1,
      )
