-- ===== src/Syscall/Kill.antt =====
-- Which processes sys_kill of syscall.c reaches.
use curnel.Prelude.{ℕ, ◌-◌, ◌^◌, ◌≡◌, ◌<◌, true, false, arith, ltb, leb, ◌==◌, u64, minus_one}
use curnel.Kernel.{Kernel, entry, done}
use curnel.Scheduler.Group.{send_to_group-nobody}
use curnel.Syscall.{sys_kill}

module _ (call_handler : ℕ → ℕ → Kernel → Kernel) (f : ℕ) where
  -- When every process is in a group below 2^63, `sys_kill` with a pid from 1 to 2^63 - 1 and a
  -- signal below 32 changes nothing and reports 0, whether or not a process has the pid.
  pub sys_kill-by_pid :
      (k : Kernel) (pid signum : ℕ)
      → 0 < pid
      → pid < 2 ^ 63
      → signum < 32
      → ((i : ℕ) → (entry k i).process_group < 2 ^ 63)
      → sys_kill call_handler f k pid signum ≡ done (k, 0)
  unfolding sys_kill
  sys_kill-by_pid k pid signum positive small known groups =
      let t1 : leb 32 signum ≡ false = ground arith in
      let t2 : (pid == 0) ≡ false = ground arith in
      let t3 : ltb pid minus_one ≡ true = ground arith in
      rw (t1, t2, t3)
        (send_to_group-nobody call_handler f (u64 (2 ^ 64 - pid)) signum k
          (λ i e. omega (arith, groups i)))
