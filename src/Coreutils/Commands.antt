-- ===== src/Coreutils/Commands.antt =====
-- The table of commands of coreutils.c, the commands that need it, and execute_command.
use curnel.Prelude.{
  ℕ, ◌-◌, Option, none, some, List, [], ◌∷◌, ◌++◌, length, get_or, ltb, ◌==◌, if◌then◌else◌, text,
}
use curnel.Kernel.{Kernel, Outcome, done, ◌>>=◌}
use curnel.Terminal.{Output, writes, initializes, strlen}
use curnel.Coreutils.{
  FileApi, World, says, newline, message, failure, strcmp, parse_command_line, strings_at,
}
use curnel.Coreutils.Files.{
  spaces, cmd_ls, cmd_cd, cmd_pwd, cmd_mkdir, cmd_rmdir, cmd_rm, cmd_cp, cmd_mv, cmd_cat, cmd_touch,
}
use curnel.Coreutils.Processes.{cmd_ps, cmd_kill, cmd_sleep, cmd_exit}

-- The pointers to functions in the table.
pub data Func : Type 0 where
  ls cd pwd mkdir rmdir rm cp mv cat echo ps kill sleep touch clear help exit : Func

-- `command_t`
pub record Command : Type 0 where
  pub name : List ℕ
  pub func : Func
  pub description : List ℕ
  pub usage : List ℕ

abbrev pub command : List ℕ → Func → List ℕ → List ℕ → Command
command name func description usage = record {
  name = name;
  func = func;
  description = description;
  usage = usage;
}

unfoldable pub commands : List Command
commands =
    command (text "ls") ls (text "Dizin içeriğini listele") (text "ls [dizin]")
    ∷ command (text "cd") cd (text "Çalışma dizinini değiştir") (text "cd [dizin]")
    ∷ command (text "pwd") pwd (text "Mevcut çalışma dizinini göster") (text "pwd")
    ∷ command (text "mkdir") mkdir (text "Yeni dizin oluştur") (text "mkdir <dizin>")
    ∷ command (text "rmdir") rmdir (text "Dizini sil") (text "rmdir <dizin>")
    ∷ command (text "rm") rm (text "Dosya sil") (text "rm <dosya>")
    ∷ command (text "cp") cp (text "Dosya kopyala") (text "cp <kaynak> <hedef>")
    ∷ command (text "mv") mv (text "Dosya taşı veya yeniden adlandır") (text "mv <kaynak> <hedef>")
    ∷ command (text "cat") cat (text "Dosya içeriğini görüntüle") (text "cat <dosya>")
    ∷ command (text "echo") echo (text "Metni ekrana yazdır") (text "echo [metin...]")
    ∷ command (text "ps") ps (text "Çalışan süreçleri göster") (text "ps")
    ∷ command (text "kill") kill (text "Sürece sinyal gönder") (text "kill [-s sinyal] <pid>")
    ∷ command (text "sleep") sleep (text "Belirtilen süre kadar bekle") (text "sleep <saniye>")
    ∷ command (text "touch") touch (text "Boş dosya oluştur veya zaman damgasını güncelle")
        (text "touch <dosya>")
    ∷ command (text "clear") clear (text "Ekranı temizle") (text "clear")
    ∷ command (text "help") help (text "Komut yardımını göster") (text "help [komut]")
    ∷ command (text "exit") exit (text "Kabuktan çık") (text "exit [durum]")
    ∷ []

-- The loop over the table that `execute_command` and `help` share: the first entry of this name.
unfoldable pub find_command : List ℕ → List Command → Option Command
find_command s [] = none
find_command s (c ∷ cs) =
    let rest = find_command s cs in if strcmp s c.name == 0 then some c else rest

print_command_help : Command → List Output
print_command_help cmd =
    writes (text "Komut: ")
    ∷ writes cmd.name
    ∷ writes (text "\n\n")
    ∷ writes (text "Açıklama: ")
    ∷ writes cmd.description
    ∷ writes (text "\n\n")
    ∷ writes (text "Kullanım: ")
    ∷ writes cmd.usage
    ∷ writes newline
    ∷ []

-- The loop of `echo` over the arguments after the first.
echo_loop : List (List ℕ) → List Output
echo_loop [] = []
echo_loop (s ∷ []) = writes s ∷ []
echo_loop (s ∷ t ∷ rest) = writes s ∷ writes (32 ∷ []) ∷ echo_loop (t ∷ rest)

abbrev pub arguments : List (List ℕ) → List (List ℕ)
arguments [] = []
arguments (s ∷ rest) = rest

-- The loop of `help` with no argument.
help_lines : List Command → List Output
help_lines [] = []
help_lines (c ∷ cs) =
    writes c.name
    ∷ (spaces (10 - strlen c.name)
        ++ (writes (text " - ") ∷ writes c.description ∷ writes newline ∷ help_lines cs))

module _ {F : Type 0} where
  cmd_echo : World F → List (List ℕ) → World F × ℕ
  cmd_echo w argv = (says w (echo_loop (arguments argv) ++ (writes newline ∷ [])), 0)

  cmd_clear : World F → World F × ℕ
  cmd_clear w = (says w (initializes ∷ []), 0)

  cmd_help : World F → List (List ℕ) → World F × ℕ
  cmd_help w argv =
      if ltb 1 (length argv)
      then elim (find_command (get_or argv 1 []) commands) [
        | none ↦ (says w (message (text "Hata: Bilinmeyen komut: ") (get_or argv 1 [])), failure)
        | some c ↦ (says w (print_command_help c), 0)
      ]
      else (
        says w (
            writes (text "Kullanılabilir komutlar:\n")
            ∷ writes (text "---------------------\n")
            ∷ (help_lines commands
                ++ (writes (text "\nDaha fazla bilgi için: help <komut>\n") ∷ []))),
        0,
      )

  module _ (api : FileApi F) (call_handler : ℕ → ℕ → Kernel → Kernel)
      (interrupt : Kernel → Outcome Kernel) (f : ℕ) where
    -- `commands[i].func(argc, argv)`
    pub call_func : Func → World F → List (List ℕ) → Outcome (World F × ℕ)
    call_func ls w argv = cmd_ls api f w argv
    call_func cd w argv = done (cmd_cd api w argv)
    call_func pwd w argv = done (cmd_pwd api w)
    call_func mkdir w argv = done (cmd_mkdir api w argv)
    call_func rmdir w argv = done (cmd_rmdir api w argv)
    call_func rm w argv = done (cmd_rm api w argv)
    call_func cp w argv = cmd_cp api f w argv
    call_func mv w argv = done (cmd_mv api w argv)
    call_func cat w argv = cmd_cat api f w argv
    call_func echo w argv = done (cmd_echo w argv)
    call_func ps w argv = done (cmd_ps w)
    call_func kill w argv = cmd_kill call_handler f w argv
    call_func sleep w argv = cmd_sleep call_handler f interrupt w argv
    call_func touch w argv = done (cmd_touch api w argv)
    call_func clear w argv = done (cmd_clear w)
    call_func help w argv = done (cmd_help w argv)
    call_func exit w argv = cmd_exit call_handler f w argv

    -- What `execute_command` does once the table has been searched.
    abbrev pub run_found : World F → List ℕ → List (List ℕ) → Option Command → Outcome (World F × ℕ)
    run_found w name rest none = done (says w (message (text "Komut bulunamadi: ") name), failure)
    run_found w name rest (some c) = call_func c.func w (name ∷ rest)

    -- What it does with the arguments.
    unfoldable pub run_command : World F → List (List ℕ) → Outcome (World F × ℕ)
    run_command w [] = done (w, 0)
    run_command w (name ∷ rest) = run_found w name rest (find_command name commands)

    -- The result comes with the command line as the call leaves it.
    unfoldable pub execute_command : World F → List ℕ → Outcome (World F × ℕ × List ℕ)
    execute_command w command_line =
        let p = parse_command_line command_line 64 in
        run_command w (strings_at (p.0) (p.1)) >>= λ r. done (r.0, r.1, p.0)
