-- ===== src/Shell/Tests.antt =====
-- The theorems about shell.c at concrete states, and runs.
use curnel.Prelude.{
  ◌⊎◌, ℕ, inl, suc, ap, ◌≡◌, ◌≢◌, refl, true, false, Option, none, some, List, [], ◌∷◌, replicate,
  arith, length-replicate,
}
use curnel.Memory.{Heap, unused}
use curnel.Kernel.{done}
use curnel.Terminal.{strlen}
use curnel.Coreutils.{World, until_nul}
use curnel.Coreutils.Tests.{no_files, quiet_world}
use curnel.Shell.{
  Shell, Saved, running, KeyEvent, erase, arrow_left, other, shell_run, shell_handle_up_arrow,
}
use curnel.Shell.Editing.{IsValid, Line, line}
use curnel.Shell.Plain.{plain_all, types_at_end}
use curnel.Shell.Keys.{Leaves, character, shortened, shell_run-edits, shell_run-Loses}
use curnel.Shell.History.{Adds, shell_add_to_history-Keeps, up_arrow-Recalls}

-- A shell with one command in its history, and an empty line.
abbrev one_command : Shell
one_command = record {
  buffer = replicate 256 0;
  buffer_pos = 0;
  history = some (record { address = 4096; bytes = 108 ∷ 115 ∷ [] }) ∷ replicate 9 none;
  history_count = 1;
  history_index = none;
  cwd = [];
  state = running;
  exit_code = 0;
}

empty_line : strlen (replicate 256 0) ≡ 0
unfolding strlen
empty_line = refl

one_command-IsValid : IsValid one_command
one_command-IsValid = record {
  full = length-replicate {A = ℕ} 256 0;
  ends = omega (arith, empty_line);
  inside = omega arith;
}

-- "lx", then back over the "x", and another byte.
abbrev keys : List KeyEvent
keys =
    record { key = other; pressed = true; ascii = 108 }
    ∷ record { key = other; pressed = true; ascii = 120 }
    ∷ record { key = other; pressed = false; ascii = 120 }
    ∷ record { key = erase; pressed = true; ascii = 0 }
    ∷ record { key = arrow_left; pressed = true; ascii = 0 }
    ∷ []

shell_run-edits_example :
    (l : Line) × Leaves no_files
      (λ h a. some h)
      (λ h s k. k)
      done
      0
      one_command
      (shell_run no_files (λ h a. some h) (λ h s k. k) done 0 keys quiet_world one_command)
      l
    × ((l ≡ plain_all keys (line one_command)) ⊎ (types_at_end keys (line one_command) ≡ false))
shell_run-edits_example =
    shell_run-edits no_files (λ h a. some h) (λ h s k. k) done 0 keys quiet_world one_command
      (tt, (tt, (tt, (tt, (tt, tt))))) one_command-IsValid

-- These keys type at the end of the line only.
keys_at_end : types_at_end keys (line one_command) ≡ true
unfolding types_at_end until_nul
keys_at_end = refl

-- The line "ls" with the cursor on its second byte.
abbrev in_line : Shell
in_line = record one_command { buffer = 108 ∷ 115 ∷ replicate 254 0; buffer_pos = 1 }

in_line-strlen : strlen in_line.buffer ≡ 2
unfolding strlen
in_line-strlen = refl

in_line-IsValid : IsValid in_line
in_line-IsValid = record {
  full = ap (λ n. suc (suc n)) (length-replicate {A = ℕ} 254 0);
  ends = omega (arith, in_line-strlen);
  inside = omega (arith, in_line-strlen);
}

shell_run-Loses_example :
    Leaves no_files
      (λ h a. some h)
      (λ h s k. k)
      done
      0
      in_line
      (shell_run no_files
        (λ h a. some h)
        (λ h s k. k)
        done
        0
        (character 120 ∷ [])
        quiet_world
        in_line)
      (shortened 120 in_line)
    × (shortened 120 in_line ≢ plain_all (character 120 ∷ []) (line in_line))
shell_run-Loses_example =
    shell_run-Loses no_files (λ h a. some h) (λ h s k. k) done 0 120 quiet_world in_line
      (λ e. omega (arith, e)) in_line-IsValid (omega (arith, in_line-strlen))

abbrev free_any : Heap → ℕ → Option Heap
free_any h a = some h

abbrev ls : Saved
ls = record { address = 4096; bytes = 108 ∷ 115 ∷ [] }

shell_add_to_history-Keeps_example :
    Adds free_any (λ h a. (h, refl)) unused one_command (112 ∷ 115 ∷ [])
shell_add_to_history-Keeps_example =
    shell_add_to_history-Keeps free_any (λ h a. (h, refl)) unused one_command (112 ∷ 115 ∷ [])
      (omega arith, (omega arith, tt)) (refl, omega arith)
      ((ls, refl, (omega arith, (omega arith, tt))), tt)

up_arrow-Recalls_example :
    (w' : World (Unit {0})) × (s' : Shell) × (shell_handle_up_arrow no_files quiet_world one_command
      ≡ done (w', s'))
    × IsValid s'
    × (line s' ≡ record { words = until_nul (108 ∷ 115 ∷ []); at = strlen (108 ∷ 115 ∷ []) })
    × (s'.history_index ≡ some 0)
    × (s'.history ≡ one_command.history)
    × (s'.history_count ≡ 1)
up_arrow-Recalls_example =
    up_arrow-Recalls no_files quiet_world one_command 0 ls one_command-IsValid
      (omega arith, inl (refl, refl)) refl (unfold strlen in omega arith)
