-- ===== src/Coreutils.antt =====
-- coreutils.c: strings, the splitting of a command line, and what the commands work on. A `char*` is
-- the list of the bytes that it points to, with a NUL behind the last; an `int` is its 32-bit word.
pub mod Words
pub mod Numbers
pub mod Compare
pub mod Files
pub mod Processes
pub mod Commands
pub mod Dispatch
pub mod Tests
use curnel.Prelude.{
  ℕ, zero, suc, ◌+◌, ◌-◌, ◌*◌, ◌%◌, ◌^◌, Bool, true, false, not, ◌&&◌, ◌||◌, Option, List, [], ◌∷◌,
  ◌++◌, length, drop, leb, ltb, ◌==◌, if◌then◌else◌, u32, sub32,
}
use curnel.Kernel.{Kernel}
use curnel.Terminal.{Output, writes}

-- `c == ' ' || c == '\t'`
abbrev pub is_blank : ℕ → Bool
is_blank c = c == 32 || c == 9

-- The loop of `parse_command_line` over the bytes from number `i` on, with `room` arguments still
-- free: the bytes that it leaves, and the number of the first byte of each argument.
pub parse_loop : List ℕ → ℕ → Bool → ℕ → List ℕ × List ℕ
parse_loop [] i in_word room = ([], [])
parse_loop (c ∷ s) i in_word room =
    let starts = not (is_blank c) && not in_word in
    let rest = parse_loop s (i + 1) (not (is_blank c)) (if starts then room - 1 else room) in
    if c == 0 || room == 0
    then (c ∷ s, [])
    else ((if is_blank c && in_word then 0 else c) ∷ rest.0, if starts then i ∷ rest.1 else rest.1)

-- The command line after the call, and where the arguments start: `argc` is their number.
pub parse_command_line : List ℕ → ℕ → List ℕ × List ℕ
parse_command_line command_line max_args = parse_loop command_line 0 false (max_args - 1)

-- The text that stands before the NUL.
unfoldable pub until_nul : List ℕ → List ℕ
until_nul [] = []
until_nul (c ∷ s) = let rest = until_nul s in if c == 0 then [] else c ∷ rest

-- The strings that the pointers in `argv` show.
pub strings_at : List ℕ → List ℕ → List (List ℕ)
strings_at command_line [] = []
strings_at command_line (o ∷ os) = until_nul (drop o command_line) ∷ strings_at command_line os

-- The loop that skips blanks.
pub skip_blanks : List ℕ → List ℕ
skip_blanks [] = []
skip_blanks (c ∷ s) = let rest = skip_blanks s in if is_blank c then rest else c ∷ s

pub atoi_digits : List ℕ → ℕ → ℕ
atoi_digits [] result = result
atoi_digits (c ∷ s) result =
    let rest = atoi_digits s (u32 (result * 10 + (c - 48))) in
    if leb 48 c && leb c 57 then rest else result

-- After the blanks: the sign, and the digits.
pub atoi_signed : List ℕ → ℕ
atoi_signed [] = 0
atoi_signed (c ∷ s) =
    if c == 45
    then sub32 0 (atoi_digits s 0)
    else if c == 43
    then atoi_digits s 0
    else atoi_digits (c ∷ s) 0

pub atoi : List ℕ → ℕ
atoi str = atoi_signed (skip_blanks str)

-- The difference of the first bytes that differ, or of a NUL and what stands there.
unfoldable pub strcmp : List ℕ → List ℕ → ℕ
strcmp [] [] = 0
strcmp [] (d ∷ t) = sub32 0 d
strcmp (c ∷ s) [] = c
strcmp (c ∷ s) (d ∷ t) = let rest = strcmp s t in if not (c == 0) && c == d then rest else sub32 c d

-- A directory entry, as the `ls` command reads it.
pub record DirEntry : Type 0 where
  pub name : List ℕ
  pub is_dir : Bool

-- The functions `fs_opendir` to `fs_close` with the arguments that the commands give them; no file of
-- the source defines them so. `F` is a file system, with pointers to files and directories as
-- numbers, and NULL as `none`.
pub record FileApi (F : Type 0) : Type 0 where
  pub opendir : F → List ℕ → F × Option ℕ
  pub readdir : F → ℕ → F × Option DirEntry
  pub closedir : F → ℕ → F
  pub chdir : F → List ℕ → F × ℕ
  pub getcwd : F → ℕ → F × Option (List ℕ)
  pub mkdir : F → List ℕ → F × ℕ
  pub rmdir : F → List ℕ → F × ℕ
  pub unlink : F → List ℕ → F × ℕ
  pub rename : F → List ℕ → List ℕ → F × ℕ
  pub open_file : F → List ℕ → List ℕ → F × Option ℕ
  pub read : F → ℕ → ℕ → F × List ℕ
  pub write : F → ℕ → List ℕ → F × ℕ
  pub close : F → ℕ → F

-- What a command changes: the kernel, the files, and the calls of the terminal so far.
pub record World (F : Type 0) : Type 0 where
  pub kernel : Kernel
  pub files : F
  pub output : List Output

abbrev pub says : {F : Type 0} → World F → List Output → World F
says w outs = record w { output = w.output ++ outs }

abbrev pub newline : List ℕ
newline = 10 ∷ []

-- Three writes: a message, a name, and a newline.
abbrev pub message : List ℕ → List ℕ → List Output
message before name = writes before ∷ writes name ∷ writes newline ∷ []

-- `-1` as an `int`
abbrev pub failure : ℕ
failure = 2 ^ 32 - 1
