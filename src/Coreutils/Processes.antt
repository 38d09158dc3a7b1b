-- ===== src/Coreutils/Processes.antt =====
-- The commands of coreutils.c on processes: ps, kill, sleep and exit.
use curnel.Prelude.{
  ℕ, zero, suc, ◌+◌, ◌*◌, ◌^◌, Bool, ◌&&◌, ◌||◌, Option, none, some, List, [], ◌∷◌, ◌++◌, length,
  get_or, ltb, leb, ◌==◌, if◌then◌else◌, text, u32, int_word,
}
use curnel.Kernel.{
  State, ready, running, blocked, sleeping, zombie, stopped, Process, Kernel, entry, max_processes,
  max_signals, Outcome, done, ◌>>=◌,
}
use curnel.Process.{get_process}
use curnel.Scheduler.{exit_process}
use curnel.Signals.{sigkill, sigterm, sigcont, sigstop}
use curnel.Syscall.{sys_kill, sys_sleep, sys_getpid}
use curnel.Terminal.{Output, writes}
use curnel.Terminal.Numerals.{int_to_string}
use curnel.Coreutils.{World, says, newline, failure, strcmp, atoi}

abbrev state_name : State → List ℕ
state_name ready = text "READY"
state_name running = text "RUNNING"
state_name blocked = text "BLOCKED"
state_name sleeping = text "SLEEPING"
state_name zombie = text "ZOMBIE"
state_name stopped = text "STOPPED"

-- One line of `ps`.
ps_line : Process → List Output
ps_line p =
    writes (int_to_string (u32 p.pid))
    ∷ writes (text "\t")
    ∷ writes (state_name p.state)
    ∷ writes (text "\t")
    ∷ writes (int_to_string (u32 p.cpu_time))
    ∷ writes (text "\t")
    ∷ writes p.name
    ∷ writes newline
    ∷ []

-- The loop of `ps`: `i` is used as a pid.
ps_loop : Kernel → ℕ → ℕ → List Output
ps_loop k zero i = []
ps_loop k (suc left) i =
    elim (get_process k i) [
      | none ↦ []
      | some j ↦ if (entry k j).pid == 0 then [] else ps_line (entry k j)
    ]
    ++ ps_loop k left (i + 1)

abbrev is_either : List ℕ → List ℕ → List ℕ → Bool
is_either s name number = strcmp s name == 0 || strcmp s number == 0

-- The signal that `-s` names; `none` for the error.
signal_named : List ℕ → Option ℕ
signal_named s =
    if is_either s (text "SIGTERM") (text "15")
    then some sigterm
    else if is_either s (text "SIGKILL") (text "9")
    then some sigkill
    else if is_either s (text "SIGINT") (text "2")
    then some 2
    else if is_either s (text "SIGHUP") (text "1")
    then some 1
    else if is_either s (text "SIGCONT") (text "18")
    then some sigcont
    else if is_either s (text "SIGSTOP") (text "19")
    then some sigstop
    else if atoi s == 0 || leb (2 ^ 31) (atoi s) || leb max_signals (atoi s)
    then none
    else some (atoi s)

-- The signal and the place of the pid among the arguments.
kill_arguments : List (List ℕ) → Option (ℕ × ℕ)
kill_arguments argv =
    if leb 3 (length argv) && strcmp (get_or argv 1 []) (text "-s") == 0
    then elim (signal_named (get_or argv 2 [])) [ none ↦ none | some signum ↦ some (signum, 3) ]
    else some (sigterm, 1)

module _ {F : Type 0} where
  pub cmd_ps : World F → World F × ℕ
  cmd_ps w = (
    says w (
        writes (text "PID\tDURUM\tCPU\tAD\n")
        ∷ writes (text "-----------------------------------\n")
        ∷ ps_loop w.kernel max_processes 0),
    0,
  )

  module _ (call_handler : ℕ → ℕ → Kernel → Kernel) (f : ℕ) where
    pub cmd_kill : World F → List (List ℕ) → Outcome (World F × ℕ)
    cmd_kill w argv = elim (kill_arguments argv) [
      | none ↦ done (says w (writes (text "Hata: Geçersiz sinyal numarası\n") ∷ []), failure)
      | some (signum, pid_arg_index) ↦
          if leb (length argv) pid_arg_index
          then done (says w (writes (text "Hata: PID belirtilmedi\n") ∷ []), failure)
          else (sys_kill call_handler f w.kernel (int_word (atoi (get_or argv pid_arg_index [])))
                signum
              >>= λ r.
                  let w = record w { kernel = r.0 } in
                  done (
                    if r.1 == 0
                    then (w, 0)
                    else (says w (writes (text "Hata: Sinyal gönderilemedi\n") ∷ []), failure)))
    ]

    pub cmd_sleep : (Kernel → Outcome Kernel) → World F → List (List ℕ) → Outcome (World F × ℕ)
    cmd_sleep interrupt w argv =
        let seconds = atoi (get_or argv 1 []) in
        if ltb (length argv) 2
        then done (says w (writes (text "Hata: Süre belirtilmedi\n") ∷ []), failure)
        else if seconds == 0 || leb (2 ^ 31) seconds
        then done (says w (writes (text "Hata: Geçersiz süre\n") ∷ []), failure)
        else (sys_sleep call_handler f interrupt w.kernel (int_word (u32 (seconds * 1000))) >>= λ r.
            done (record w { kernel = r.0 }, 0))

    pub cmd_exit : World F → List (List ℕ) → Outcome (World F × ℕ)
    cmd_exit w argv =
        let status = if ltb 1 (length argv) then atoi (get_or argv 1 []) else 0 in
        exit_process call_handler f w.kernel (sys_getpid w.kernel) (int_word status) >>= λ k.
        done (record w { kernel = k }, 0)
