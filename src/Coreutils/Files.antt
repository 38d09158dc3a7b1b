-- ===== src/Coreutils/Files.antt =====
-- The commands of coreutils.c on files and directories. The strings of `argv` are a list, `argc` its
-- length; a result is the 32-bit word of an `int`. Loops that read run on fuel.
use curnel.Prelude.{
  ℕ, zero, suc, ◌+◌, ◌-◌, ◌%◌, Bool, not, ◌&&◌, ◌||◌, none, some, List, [], ◌∷◌, ◌++◌, length,
  get_or, ltb, ◌==◌, if◌then◌else◌, text,
}
use curnel.Kernel.{Outcome, done, no_fuel, ◌>>=◌}
use curnel.Terminal.{
  Output, writes, colors, vga_entry_color, color_black, color_light_blue, color_light_grey, strlen,
}
use curnel.Coreutils.{DirEntry, FileApi, World, says, newline, message, failure}

abbrev arg : List (List ℕ) → ℕ → List ℕ
arg argv i = get_or argv i []

-- `entry.name[0] == '.' && entry.name[1] == '\0'`, or the same with two dots.
abbrev is_dots : List ℕ → Bool
is_dots name =
    get_or name 0 0 == 46
    && (get_or name 1 0 == 0 || (get_or name 1 0 == 46 && get_or name 2 0 == 0))

-- `for (int i = from; i < width; i++) terminal_writestring(" ");`
pub spaces : ℕ → List Output
spaces zero = []
spaces (suc n) = writes (32 ∷ []) ∷ spaces n

-- What `ls` prints for entry number `count + 1`.
ls_entry : DirEntry → ℕ → List Output
ls_entry entry count =
    (if entry.is_dir
      then colors (vga_entry_color color_light_blue color_black)
        ∷ writes entry.name
        ∷ writes (text "/")
        ∷ []
      else colors (vga_entry_color color_light_grey color_black) ∷ writes entry.name ∷ [])
    ++ (spaces (20 - strlen entry.name)
        ++ (if (count + 1) % 4 == 0 then writes newline ∷ [] else []))

module _ {F : Type 0} (api : FileApi F) where
  -- The loop of `ls`, with the number of entries so far.
  ls_loop : ℕ → World F → ℕ → ℕ → Outcome (World F × ℕ)
  ls_loop zero w dir count = no_fuel
  ls_loop (suc f) w dir count =
      let read = api.readdir w.files dir in
      let w = record w { files = read.0 } in
      elim (read.1) [
        | none ↦ done (w, count)
        | some entry ↦
            let seen = not (is_dots entry.name) in
            ls_loop f (if seen then says w (ls_entry entry count) else w) dir
              (if seen then count + 1 else count)
      ]

  pub cmd_ls : ℕ → World F → List (List ℕ) → Outcome (World F × ℕ)
  cmd_ls f w argv =
      let path = if ltb 1 (length argv) then arg argv 1 else text "." in
      let opened = api.opendir w.files path in
      let w = record w { files = opened.0 } in
      elim (opened.1) [
        | none ↦ done (says w (message (text "Hata: Dizin acilamadi: ") path), failure)
        | some dir ↦
            ls_loop f
              (says w (
                message (text "Dizin listesi: ") path
                ++ (writes (text "----------------------------------\n") ∷ [])))
              dir 0
            >>= λ r. done (
              record (says (r.0) (
                  (if r.1 % 4 == 0 then [] else writes newline ∷ [])
                  ++ (colors (vga_entry_color color_light_grey color_black) ∷ []))) {
                    files = api.closedir (r.0).files dir;
                  },
              0,
            )
      ]

  -- What `cd`, `mkdir`, `rmdir` and `rm` share: one argument, one call, a message if it fails.
  abbrev one_call : (F → List ℕ → F × ℕ) → List ℕ → List ℕ → World F → List (List ℕ) → World F × ℕ
  one_call call missing refused w argv =
      if ltb (length argv) 2
      then (says w (writes missing ∷ []), failure)
      else let r = call w.files (arg argv 1) in
        let w = record w { files = r.0 } in
        if r.1 == 0 then (w, 0) else (says w (message refused (arg argv 1)), failure)

  pub cmd_cd : World F → List (List ℕ) → World F × ℕ
  cmd_cd =
      one_call api.chdir (text "Hata: Dizin belirtilmedi\n") (text "Hata: Dizin değiştirilemedi: ")

  pub cmd_mkdir : World F → List (List ℕ) → World F × ℕ
  cmd_mkdir =
      one_call api.mkdir (text "Hata: Dizin adı belirtilmedi\n")
        (text "Hata: Dizin oluşturulamadı: ")

  pub cmd_rmdir : World F → List (List ℕ) → World F × ℕ
  cmd_rmdir =
      one_call api.rmdir (text "Hata: Dizin adı belirtilmedi\n") (text "Hata: Dizin silinemedi: ")

  pub cmd_rm : World F → List (List ℕ) → World F × ℕ
  cmd_rm =
      one_call api.unlink (text "Hata: Dosya adı belirtilmedi\n") (text "Hata: Dosya silinemedi: ")

  pub cmd_pwd : World F → World F × ℕ
  cmd_pwd w =
      let r = api.getcwd w.files 256 in
      let w = record w { files = r.0 } in
      elim (r.1) [
        | none ↦ (says w (writes (text "Hata: Çalışma dizini alınamadı\n") ∷ []), failure)
        | some path ↦ (says w (writes path ∷ writes newline ∷ []), 0)
      ]

  -- The loop of `cp`; the result of `fs_write` is not looked at.
  copy_loop : ℕ → F → ℕ → ℕ → Outcome F
  copy_loop zero s src dst = no_fuel
  copy_loop (suc f) s src dst = elim ((api.read s src 512).1) [
    | [] ↦ done ((api.read s src 512).0)
    | b ∷ bs ↦ copy_loop f ((api.write ((api.read s src 512).0) dst (b ∷ bs)).0) src dst
  ]

  pub cmd_cp : ℕ → World F → List (List ℕ) → Outcome (World F × ℕ)
  cmd_cp f w argv =
      if ltb (length argv) 3
      then done (
        says w (
            writes (text "Hata: Eksik argüman\n")
            ∷ writes (text "Kullanım: cp <kaynak> <hedef>\n")
            ∷ []),
        failure,
      )
      else let from = api.open_file w.files (arg argv 1) (text "r") in
        elim (from.1) [
          | none ↦ done (
            says (record w { files = from.0 })
                (message (text "Hata: Kaynak dosya açılamadı: ") (arg argv 1)),
            failure,
          )
          | some src ↦
              let to = api.open_file (from.0) (arg argv 2) (text "w") in
              elim (to.1) [
                | none ↦ done (
                  says (record w { files = api.close (to.0) src })
                      (message (text "Hata: Hedef dosya açılamadı: ") (arg argv 2)),
                  failure,
                )
                | some dst ↦ copy_loop f (to.0) src dst >>= λ s.
                    done (record w { files = api.close (api.close s src) dst }, 0)
              ]
        ]

  pub cmd_mv : World F → List (List ℕ) → World F × ℕ
  cmd_mv w argv =
      if ltb (length argv) 3
      then (
        says w (
            writes (text "Hata: Eksik argüman\n")
            ∷ writes (text "Kullanım: mv <kaynak> <hedef>\n")
            ∷ []),
        failure,
      )
      else let r = api.rename w.files (arg argv 1) (arg argv 2) in
        let w = record w { files = r.0 } in
        if r.1 == 0 then (w, 0) else (
          says w (
              writes (text "Hata: Dosya taşınamadı: ")
              ∷ writes (arg argv 1)
              ∷ message (text " -> ") (arg argv 2)),
          failure,
        )

  -- The loop of `cat`: a NUL among the bytes ends what is written of them.
  cat_loop : ℕ → World F → ℕ → Outcome (World F)
  cat_loop zero w file = no_fuel
  cat_loop (suc f) w file =
      let r = api.read w.files file 511 in
      let w = record w { files = r.0 } in
      elim (r.1) [ [] ↦ done w | b ∷ bs ↦ cat_loop f (says w (writes (b ∷ bs) ∷ [])) file ]

  pub cmd_cat : ℕ → World F → List (List ℕ) → Outcome (World F × ℕ)
  cmd_cat f w argv =
      if ltb (length argv) 2
      then done (says w (writes (text "Hata: Dosya adı belirtilmedi\n") ∷ []), failure)
      else let opened = api.open_file w.files (arg argv 1) (text "r") in
        let w = record w { files = opened.0 } in
        elim (opened.1) [
          | none ↦ done (says w (message (text "Hata: Dosya açılamadı: ") (arg argv 1)), failure)
          | some file ↦ cat_loop f w file >>= λ w.
              let w = says w (writes newline ∷ []) in
              done (record w { files = api.close w.files file }, 0)
        ]

  pub cmd_touch : World F → List (List ℕ) → World F × ℕ
  cmd_touch w argv =
      if ltb (length argv) 2
      then (says w (writes (text "Hata: Dosya adı belirtilmedi\n") ∷ []), failure)
      else let opened = api.open_file w.files (arg argv 1) (text "a") in
        let w = record w { files = opened.0 } in
        elim (opened.1) [
          | none ↦ (says w (message (text "Hata: Dosya oluşturulamadı: ") (arg argv 1)), failure)
          | some file ↦ (record w { files = api.close w.files file }, 0)
        ]
