-- ===== src/Process/Create.antt =====
-- init_processes and create_process of process.c.
use curnel.Prelude.{
  ℕ, zero, suc, ◌+◌, ◌≤◌, ◌<◌, ◌≡◌, ◌≢◌, refl, sym, ap, subst, ◌∙◌, none, some, List, [], ◌∷◌,
  length, get_or, modify, get_or-modify_self, set-modify, replicate, set, length-set, arith, All,
  Option-cases, inl, inr, ◌⊎◌, u64,
}
use curnel.Memory.{Heap, kmalloc}
use curnel.Kernel.{ready, max_processes, Process, blank, Kernel, entry, update}
use curnel.Process.{find_pid, create_process, new_process, pointer, init_processes}
use curnel.Process.Table.{
  pids, find_in, find_pid-find_in, length-pids, count_free, IsTable, IsValid, find_pid-some,
}
use curnel.Process.Pids.{
  count_free-set, pids-fill, All-fresh-set, not_found, find_in-set_self, Distinct-set,
}

pub All-replicate {ℓ κ} :
    {A : Type ℓ} (P : A → Type κ) (n : ℕ) (a : A) → P a → All P (replicate n a)
All-replicate P zero a h = tt
All-replicate P (suc n) a h = (h, All-replicate P n a h)

pub pids-blanks : (n : ℕ) → pids (replicate n blank) ≡ replicate n 0
unfolding blank
pids-blanks zero = refl
pids-blanks (suc n) = ap (λ xs. 0 ∷ xs) (pids-blanks n)

-- `init_processes` makes a valid kernel, when the first pid is still to be given out and the current
-- index is one of the table's.
pub init-IsValid :
    (k : Kernel)
    → k.next_pid ≡ 1
    → k.current_process_index < max_processes
    → IsValid (init_processes k)
unfolding init_processes
init-IsValid k first low = record {
  table =
      rw (first, pids-blanks 64)
        (record {
          full = refl;
          distinct = λ i h used. absurd (used (zeros 64 i));
          fresh = All-replicate (λ x. x < 1) 64 0 (omega arith);
          counted = refl;
        });
  current = low;
  quiet = All-replicate (λ p. p.exit_signal ≡ 0) 64 blank (unfold blank in refl);
}
  where
    zeros : (n i : ℕ) → get_or {A = ℕ} (replicate n 0) i 0 ≡ 0
    zeros zero i = refl
    zeros (suc n) zero = refl
    zeros (suc n) (suc i) = zeros n i

count_free-le : (xs : List ℕ) → count_free xs ≤ length xs
count_free-le [] = omega arith
count_free-le (x ∷ xs) = ground (arith, count_free-le xs)

next_pid_bounds : (k : Kernel) → IsValid k → (1 ≤ k.next_pid) × (k.next_pid ≤ 65)
next_pid_bounds k v = omega (arith, v.table.full, v.table.counted, count_free-le (pids k.processes))

All-modify-fill {ℓ} :
    (P : Process → Type ℓ) (ps : List Process) (i : ℕ) (f : Process → Process)
    → ((p : Process) → P (f p))
    → All P ps
    → All P (modify ps i f)
All-modify-fill P [] i f h a = a
All-modify-fill P (p ∷ ps) zero f h a = (h p, a.1)
All-modify-fill P (p ∷ ps) (suc i) f h a = (a.0, All-modify-fill P ps i f h a.1)

module _ (k : Kernel) (i : ℕ) (f : Process → Process) (h : Heap) where
  fill : Kernel
  fill = record (update k i f) { next_pid = u64 (k.next_pid + 1); heap = h }

  fill-IsValid :
      find_pid 0 k.processes ≡ some i
      → ((p : Process) → (f p).pid ≡ k.next_pid)
      → ((p : Process) → (f p).exit_signal ≡ 0)
      → IsValid k
      → IsValid fill
  unfolding fill
  fill-IsValid e hp he v = record {
    table =
        subst (λ xs. IsTable xs (u64 (k.next_pid + 1)))
          (sym (pids-fill k.processes i f k.next_pid hp))
          (record {
            full = length-set (pids k.processes) i k.next_pid ∙ v.table.full;
            distinct =
                Distinct-set (pids k.processes) i k.next_pid (omega (arith, next_pid_bounds k v))
                  v.table.fresh v.table.distinct;
            fresh =
                All-fresh-set (pids k.processes) i k.next_pid (u64 (k.next_pid + 1))
                  (omega (arith, next_pid_bounds k v)) v.table.fresh;
            counted = ground (
              arith,
              next_pid_bounds k v,
              v.table.counted,
              count_free-set (pids k.processes) i k.next_pid,
              (sym (find_pid-find_in 0 k.processes) ∙ e),
            );
          });
    current = v.current;
    quiet = All-modify-fill (λ p. p.exit_signal ≡ 0) k.processes i f he v.quiet;
  }

  fill-entry : IsValid k → find_pid 0 k.processes ≡ some i → entry fill i ≡ f (entry k i)
  unfolding fill
  fill-entry v e =
      get_or-modify_self k.processes i f blank (omega (arith, find_pid-some 0 i k.processes e))

  fill-find :
      IsValid k
      → find_pid 0 k.processes ≡ some i
      → ((p : Process) → (f p).pid ≡ k.next_pid)
      → find_pid k.next_pid fill.processes ≡ some i
  unfolding fill
  fill-find v e hp =
      find_pid-find_in k.next_pid (modify k.processes i f)
      ∙ ap (find_in k.next_pid) (pids-fill k.processes i f k.next_pid hp)
      ∙ find_in-set_self (pids k.processes) i k.next_pid
          (omega (arith, find_pid-some 0 i k.processes e, length-pids k.processes)) v.table.fresh

  fill-others : (p : Process) → set fill.processes i p ≡ set k.processes i p
  unfolding fill
  fill-others p = set-modify k.processes i f p

-- Creating a process keeps a valid kernel valid, also when the table is full.
pub create_process-IsValid :
    (k : Kernel) (name : List ℕ) (entry_point parent : ℕ)
    → IsValid k
    → IsValid (create_process k name entry_point parent).0
unfolding create_process new_process fill
create_process-IsValid k name entry_point parent v = elim (Option-cases (find_pid 0 k.processes)) [
  | inl e ↦ rw (e, create_process) v
  | inr (i, e) ↦
      rw (e, create_process)
        (fill-IsValid k i _ (kmalloc k.heap 4096).1 e (λ p. refl) (λ p. refl) v)
]

-- What `create_process` leaves where entry `i` was free: the new pid stands there and nobody had it,
-- the process is ready at its entry point with no signal pending or blocked, it leads a group of its
-- own, and all other entries are as they were.
pub record Created (k : Kernel) (entry_point parent : ℕ) (k' : Kernel) (pid i : ℕ) : Type 0 where
  pub free : find_pid 0 k.processes ≡ some i
  pub unknown : find_pid pid k.processes ≡ none
  pub positive : pid ≢ 0
  pub found : find_pid pid k'.processes ≡ some i
  pub waits : (entry k' i).state ≡ ready
  pub parented : (entry k' i).parent_pid ≡ parent
  pub starts : (entry k' i).registers.rip ≡ entry_point
  pub none_pending : (entry k' i).pending_signals ≡ 0
  pub none_blocked : (entry k' i).blocked_signals ≡ 0
  pub leads : (entry k' i).process_group ≡ pid
  pub others : (p : Process) → set k'.processes i p ≡ set k.processes i p

-- In a valid kernel, a full table refuses a process and nothing changes; otherwise the new process is
-- created as `Created` says, in the entry that was free.
pub create_process_lem :
    (k : Kernel) (name : List ℕ) (entry_point parent : ℕ)
    → IsValid k
    → let r = create_process k name entry_point parent in
      ((find_pid 0 k.processes ≡ none) × (r ≡ (k, 0)))
      ⊎ ((i : ℕ) × Created k entry_point parent (r.0) (r.1) i)
unfolding create_process new_process fill
create_process_lem k name entry_point parent v = elim (Option-cases (find_pid 0 k.processes)) [
  | inl e ↦ inl (e, rw (e, create_process))
  | inr (i, e) ↦
      let f : Process → Process = λ old.
        new_process old k.next_pid name entry_point parent (pointer (kmalloc k.heap 4096).0)
          k.timer_ticks in
      let h = (kmalloc k.heap 4096).1 in
      let here = fill-entry k i f h v e in
      inr (
        i,
        record {
          free = e;
          unknown =
              rw (e, create_process)
                (find_pid-find_in k.next_pid k.processes
                  ∙ not_found (pids k.processes) k.next_pid v.table.fresh);
          positive = rw (e, create_process) (omega (arith, next_pid_bounds k v));
          found = rw (e, create_process) (fill-find k i f h v e (λ p. refl));
          waits = rw (e, create_process) (ap (λ p. p.state) here);
          parented = rw (e, create_process) (ap (λ p. p.parent_pid) here);
          starts = rw (e, create_process) (ap (λ p. p.registers.rip) here);
          none_pending = rw (e, create_process) (ap (λ p. p.pending_signals) here);
          none_blocked = rw (e, create_process) (ap (λ p. p.blocked_signals) here);
          leads = rw (e, create_process) (ap (λ p. p.process_group) here);
          others = rw (e, create_process) (fill-others k i f h);
        },
      )
]
