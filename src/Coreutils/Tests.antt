-- ===== src/Coreutils/Tests.antt =====
-- The theorems about coreutils.c at concrete lines, and runs.
use curnel.Prelude.{ℕ, ◌-◌, ◌^◌, ◌≡◌, refl, none, List, [], ◌∷◌, text, arith}
use curnel.Kernel.{Outcome, done, ◌>>=◌}
use curnel.Boot.{booted}
use curnel.Terminal.Numerals.{int_to_string}
use curnel.Coreutils.{FileApi, World, parse_command_line, strings_at, atoi}
use curnel.Coreutils.Words.{words, first_and_rest, gather, parse_command_line-words}
use curnel.Coreutils.Numbers.{atoi-int_to_string}
use curnel.Coreutils.Commands.{execute_command}
use curnel.Coreutils.Dispatch.{Dispatches, execute_command-Dispatches}

-- A file system on which every call fails.
abbrev pub no_files : FileApi (Unit {0})
no_files = record {
  opendir = λ s path. (s, none);
  readdir = λ s dir. (s, none);
  closedir = λ s dir. s;
  chdir = λ s path. (s, 1);
  getcwd = λ s size. (s, none);
  mkdir = λ s path. (s, 1);
  rmdir = λ s path. (s, 1);
  unlink = λ s path. (s, 1);
  rename = λ s from to. (s, 1);
  open_file = λ s path mode. (s, none);
  read = λ s file size. (s, []);
  write = λ s file bytes. (s, 0);
  close = λ s file. s;
}

abbrev pub quiet_world : World (Unit {0})
quiet_world = record { kernel = booted; files = tt; output = [] }

-- "echo  hi"
abbrev line : List ℕ
line = 101 ∷ 99 ∷ 104 ∷ 111 ∷ 32 ∷ 32 ∷ 104 ∷ 105 ∷ []

line_words : words line ≡ text "echo" ∷ text "hi" ∷ []
unfolding words first_and_rest gather text
line_words = refl

parse_command_line-words_example :
    strings_at ((parse_command_line line 64).0) ((parse_command_line line 64).1) ≡ words line
parse_command_line-words_example =
    parse_command_line-words line 64 (omega arith)
      (unfold words first_and_rest gather in omega arith)

atoi-int_to_string_example : atoi (int_to_string (2 ^ 32 - 42)) ≡ 2 ^ 32 - 42
atoi-int_to_string_example = atoi-int_to_string (2 ^ 32 - 42) (omega arith) (omega arith)

execute_command-Dispatches_example :
    (r : Outcome (World (Unit {0}) × ℕ)) × Dispatches no_files
      (λ h s k. k)
      done
      0
      quiet_world
      (words line)
      r
    × (execute_command no_files (λ h s k. k) done 0 quiet_world line
        ≡ (r >>= λ q. done (q.0, q.1, (parse_command_line line 64).0)))
execute_command-Dispatches_example =
    execute_command-Dispatches no_files (λ h s k. k) done 0 quiet_world line (omega arith)
      (omega arith) (unfold words first_and_rest gather in omega arith)
