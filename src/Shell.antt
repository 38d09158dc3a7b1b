-- ===== src/Shell.antt =====
-- shell.c: the command shell. A `char*` is the list of the bytes that it points to, with a NUL behind
-- the last; calls of the terminal are recorded in their order. The functions of the keyboard that
-- shell_run calls are defined nowhere: their results are a list of events.
pub mod Buffer
pub mod Editing
pub mod Plain
pub mod Keys
pub mod Kept
pub mod History
mod Tests
use curnel.Prelude.{
  ℕ, zero, suc, ◌+◌, ◌-◌, ◌*◌, ◌%◌, ◌^◌, Bool, true, false, not, ◌&&◌, ◌||◌, Option, none, some,
  List, [], ◌∷◌, ◌++◌, length, get_or, set, drop, replicate, leb, ltb, ◌==◌, if◌then◌else◌, u64,
  sub64, text,
}
use curnel.Memory.{Heap, kmalloc, kfree}
use curnel.Kernel.{Kernel, Outcome, done, no_fuel, stray, ◌>>=◌}
use curnel.Terminal.{
  Output, writes, puts, colors, initializes, strlen, vga_entry_color, color_black, color_light_grey,
  color_light_green, color_light_cyan,
}
use curnel.Coreutils.{FileApi, World, says, newline, message, failure, strcmp, until_nul}
use curnel.Coreutils.Commands.{execute_command}

abbrev pub buffer_size : ℕ
buffer_size = 256

abbrev pub history_size : ℕ
history_size = 10

-- `shell_state_t`
pub data ShellState : Type 0 where
  ready running exit : ShellState

-- A string of the history: its address, and its bytes.
pub record Saved : Type 0 where
  pub address : ℕ
  pub bytes : List ℕ

-- `shell_t`; `none` is NULL in the history and -1 as its index.
pub record Shell : Type 0 where
  pub buffer : List ℕ
  pub buffer_pos : ℕ
  pub history : List (Option Saved)
  pub history_count : ℕ
  pub history_index : Option ℕ
  pub cwd : List ℕ
  pub state : ShellState
  pub exit_code : ℕ

abbrev pub backspace : Output
backspace = writes (8 ∷ [])

-- A loop that prints `n` times the same.
pub times : ℕ → Output → List Output
times zero o = []
times (suc n) o = o ∷ times n o

-- The loop that prints `n` bytes of the buffer from byte `i` on.
pub put_bytes : List ℕ → ℕ → ℕ → List Output
put_bytes b zero i = []
put_bytes b (suc n) i = puts (get_or b i 0) ∷ put_bytes b n (i + 1)

-- A write to a place of the buffer; outside of it the model does not follow.
abbrev pub store_byte : List ℕ → ℕ → ℕ → Outcome (List ℕ)
store_byte b i c = if ltb i (length b) then done (set b i c) else stray

unfoldable pub shell_process_input : Shell → ℕ → Outcome (Shell × List Output)
shell_process_input s c =
    if ltb s.buffer_pos (buffer_size - 1)
    then (store_byte s.buffer s.buffer_pos c >>= λ b1. store_byte b1 (s.buffer_pos + 1) 0 >>= λ b2.
        done (
          record s { buffer = b2; buffer_pos = s.buffer_pos + 1 },
          put_bytes s.buffer (strlen s.buffer - s.buffer_pos) s.buffer_pos
              ++ (puts c ∷ times (strlen b2 - (s.buffer_pos + 1)) backspace),
        ))
    else done (s, [])

unfoldable pub shell_clear_buffer : Shell → Shell
shell_clear_buffer s = record s {
  buffer = replicate buffer_size 0;
  buffer_pos = 0;
  history_index = none;
}

unfoldable pub shell_handle_left_arrow : Shell → Shell × List Output
shell_handle_left_arrow s =
    if ltb 0 s.buffer_pos
    then (record s { buffer_pos = s.buffer_pos - 1 }, backspace ∷ [])
    else (s, [])

unfoldable pub shell_handle_right_arrow : Shell → Shell × List Output
shell_handle_right_arrow s =
    if ltb s.buffer_pos (strlen s.buffer)
    then (record s { buffer_pos = s.buffer_pos + 1 }, puts (get_or s.buffer s.buffer_pos 0) ∷ [])
    else (s, [])

-- The loop of `shell_handle_backspace` from byte `i` on, whose bound is computed at each turn; the size
-- of the buffer is enough fuel.
unfoldable pub shift_left : ℕ → List ℕ → ℕ → Outcome (List ℕ × List Output)
shift_left zero b i = no_fuel
shift_left (suc f) b i =
    let rest = shift_left f (set b i (get_or b (i + 1) 0)) (i + 1) in
    if ltb i (sub64 (strlen b) 1)
    then (if ltb (i + 1) (length b)
        then (rest >>= λ r. done (r.0, puts (get_or b (i + 1) 0) ∷ r.1))
        else stray)
    else done (b, [])

unfoldable pub shell_handle_backspace : Shell → Outcome (Shell × List Output)
shell_handle_backspace s =
    if ltb 0 s.buffer_pos
    then (shift_left (buffer_size + 1) s.buffer (s.buffer_pos - 1) >>= λ r.
        store_byte (r.0) (sub64 (strlen (r.0)) 1) 0 >>= λ b. done (
          record s { buffer = b; buffer_pos = s.buffer_pos - 1 },
          backspace
              ∷ (r.1
                  ++ (writes (32 ∷ [])
                      ∷ (times (strlen (r.0) - s.buffer_pos) backspace ++ (backspace ∷ [])))),
        ))
    else done (s, [])

-- The loop of `strcpy`.
unfoldable pub strcpy : List ℕ → List ℕ → Outcome (List ℕ)
strcpy [] src = stray
strcpy (d ∷ dest) [] = done (0 ∷ dest)
strcpy (d ∷ dest) (c ∷ src) =
    let rest = strcpy dest src in if c == 0 then done (0 ∷ dest) else (rest >>= λ r. done (c ∷ r))

-- The heap after the call; the copy has the bytes up to the NUL.
unfoldable pub strdup : Heap → List ℕ → Option Saved × Heap
strdup h s = elim ((kmalloc h (strlen s + 1)).0) [
  | none ↦ (none, (kmalloc h (strlen s + 1)).1)
  | some p ↦ (some (record { address = p; bytes = until_nul s }), (kmalloc h (strlen s + 1)).1)
]

-- The loop that moves the history down by one place, with `left` places to go from place `i` on.
unfoldable pub shift_history : ℕ → List (Option Saved) → ℕ → List (Option Saved)
shift_history zero hs i = hs
shift_history (suc left) hs i = shift_history left (set hs i (get_or hs (i + 1) none)) (i + 1)

abbrev pub saved_address : Option Saved → ℕ
saved_address none = 0
saved_address (some e) = e.address

-- `free`, which no file defines, is a parameter; `none` is a stray write.
module _ (free : Heap → ℕ → Option Heap) where
  -- The block for a full history.
  unfoldable pub drop_oldest : Heap → Shell → Outcome (Heap × Shell)
  drop_oldest h s =
      if s.history_count == history_size
      then elim (free h (saved_address (get_or s.history 0 none))) [
        | none ↦ stray
        | some h' ↦ done (
          h',
          record s {
            history = shift_history (s.history_count - 1) s.history 0;
            history_count = s.history_count - 1;
          },
        )
      ]
      else done (h, s)

  -- `strcmp(shell->history[shell->history_count - 1], command) == 0`, which reads through NULL if the
  -- string could not be saved.
  unfoldable pub same_as_last : Shell → List ℕ → Outcome Bool
  same_as_last s command = elim (s.history_count == 0) [
    | true ↦ done false
    | false ↦ elim (get_or s.history (s.history_count - 1) none) [
      | none ↦ stray
      | some e ↦ done (strcmp e.bytes command == 0)
    ]
  ]

  unfoldable pub append_history : Heap → Shell → List ℕ → Heap × Shell
  append_history h s command =
      let r = strdup h command in
      (
        r.1,
        record s {
          history = set s.history s.history_count (r.0);
          history_count = s.history_count + 1;
        },
      )

  unfoldable pub shell_add_to_history : Heap → Shell → List ℕ → Outcome (Heap × Shell)
  shell_add_to_history h s command =
      if strlen command == 0
      then done (h, s)
      else (same_as_last s command >>= λ same.
          if same
          then done (h, s)
          else (drop_oldest h s >>= λ r. done (append_history (r.0) (r.1) command)))

module _ {F : Type 0} (api : FileApi F) where
  -- `fs_getcwd(shell->cwd, sizeof(shell->cwd))`
  abbrev pub update_cwd : World F → Shell → World F × Shell
  update_cwd w s =
      let r = api.getcwd w.files 256 in
      (record w { files = r.0 }, elim (r.1) [ none ↦ s | some path ↦ record s { cwd = path } ])

  unfoldable pub shell_print_prompt : World F → Shell → World F × Shell
  shell_print_prompt w s =
      let r = update_cwd w s in
      (
        says (r.0) (
            colors (vga_entry_color color_light_cyan color_black)
            ∷ writes (r.1).cwd
            ∷ colors (vga_entry_color color_light_green color_black)
            ∷ writes (text " $ ")
            ∷ colors (vga_entry_color color_light_grey color_black)
            ∷ []),
        r.1,
      )

  -- `shell` after the call, whatever stood in it before.
  unfoldable pub shell_init : World F → World F × Shell
  shell_init w =
      let zeros : Shell = record {
        buffer = replicate buffer_size 0;
        buffer_pos = 0;
        history = replicate history_size none;
        history_count = 0;
        history_index = some 0;
        cwd = [];
        state = ready;
        exit_code = 0;
      } in
      let r = update_cwd w zeros in
      shell_print_prompt
        (says (r.0) (
          initializes
          ∷ colors (vga_entry_color color_light_green color_black)
          ∷ writes (text "SimpleOS Shell v0.1\n")
          ∷ writes (text "Yardim icin 'help' yazin\n\n")
          ∷ colors (vga_entry_color color_light_grey color_black)
          ∷ []))
        (r.1)

  -- What both arrows write over the line: `\r`, blanks, `\r`. Then they show the prompt.
  abbrev pub blanked : World F → Shell → World F
  blanked w s = says w (
      writes (13 ∷ [])
      ∷ (times (s.buffer_pos + strlen s.cwd + 4) (writes (32 ∷ [])) ++ (writes (13 ∷ []) ∷ [])))

  abbrev pub redraw : World F → Shell → World F × Shell
  redraw w s = shell_print_prompt (blanked w s) s

  -- `strcpy` of a string of the history to the buffer, and what follows it.
  abbrev pub recall_found : World F → Shell → Option Saved → Outcome (World F × Shell)
  recall_found w s none = stray
  recall_found w s (some e) = strcpy s.buffer e.bytes >>= λ b.
      done (says w (writes b ∷ []), record s { buffer = b; buffer_pos = strlen b })

  -- The same for the string at `history_index`.
  abbrev pub recall : World F × Shell → Outcome (World F × Shell)
  recall r = elim (r.1).history_index [
    | none ↦ stray
    | some i ↦ recall_found (r.0) (r.1) (get_or (r.1).history i none)
  ]

  -- The index that the up arrow moves to; `none` where it returns at once.
  abbrev pub index_up : Shell → Option ℕ
  index_up s = if s.history_count == 0 then none else elim s.history_index [
    | none ↦ some (s.history_count - 1)
    | some i ↦ if ltb 0 i then some (i - 1) else none
  ]

  abbrev pub go_up : World F → Shell → Option ℕ → Outcome (World F × Shell)
  go_up w s none = done (w, s)
  go_up w s (some i) = recall (redraw w (record s { history_index = some i }))

  unfoldable pub shell_handle_up_arrow : World F → Shell → Outcome (World F × Shell)
  shell_handle_up_arrow w s = go_up w s (index_up s)

  unfoldable pub shell_handle_down_arrow : World F → Shell → Outcome (World F × Shell)
  shell_handle_down_arrow w s = if s.history_count == 0 then done (w, s) else elim s.history_index [
    | none ↦ done (w, s)
    | some i ↦
        if ltb i (s.history_count - 1)
        then recall (redraw w (record s { history_index = some (i + 1) }))
        else (let r = redraw w (record s { history_index = none }) in
            done (r.0, shell_clear_buffer (r.1)))
  ]

  module _ (free : Heap → ℕ → Option Heap) (call_handler : ℕ → ℕ → Kernel → Kernel)
      (interrupt : Kernel → Outcome Kernel) (f : ℕ) where
    -- `shell_execute_command` after the check for an empty command.
    abbrev pub run_line : World F → Shell → Outcome (World F × Shell)
    run_line w s = shell_add_to_history free w.kernel.heap s s.buffer >>= λ h.
        let w = record w { kernel = record w.kernel { heap = h.0 } } in
        execute_command api call_handler interrupt f w s.buffer >>= λ (r : World F × ℕ × List ℕ).
        let s = record (h.1) { buffer = r.2 } in
        let w =
          if r.1 == failure then says (r.0) (message (text "Komut hatasi: ") s.buffer) else r.0 in
        done (w, if strcmp s.buffer (text "exit") == 0 then record s { state = exit } else s)

    unfoldable pub shell_execute_command : World F → Shell → Outcome (World F × Shell)
    shell_execute_command w s = store_byte s.buffer s.buffer_pos 0 >>= λ b.
        if s.buffer_pos == 0
        then done (w, record s { buffer = b })
        else run_line w (record s { buffer = b })

-- What `keyboard_handle_scancode` fills in: the key, whether it is pressed, and its character.
pub data Key : Type 0 where
  enter erase arrow_up arrow_down arrow_left arrow_right tab escape ctrl_c ctrl_d other : Key

pub record KeyEvent : Type 0 where
  pub key : Key
  pub pressed : Bool
  pub ascii : ℕ

abbrev pub goes_on : ShellState → Bool
goes_on running = true
goes_on _ = false

module _ {F : Type 0} (api : FileApi F) (free : Heap → ℕ → Option Heap)
    (call_handler : ℕ → ℕ → Kernel → Kernel) (interrupt : Kernel → Outcome Kernel) (f : ℕ) where
  abbrev pub with_output : World F → Shell × List Output → World F × Shell
  with_output w r = (says w (r.1), r.0)

  -- The body of `shell_run` for a pressed key.
  unfoldable pub handle_key : Key → ℕ → World F → Shell → Outcome (World F × Shell)
  handle_key enter c w s =
      shell_execute_command api free call_handler interrupt f (says w (writes newline ∷ [])) s
      >>= λ r.
          let s = shell_clear_buffer (r.1) in
          done (if goes_on s.state then shell_print_prompt api (r.0) s else (r.0, s))
  handle_key erase c w s = shell_handle_backspace s >>= λ r. done (with_output w r)
  handle_key arrow_up c w s = shell_handle_up_arrow api w s
  handle_key arrow_down c w s = shell_handle_down_arrow api w s
  handle_key arrow_left c w s = done (with_output w (shell_handle_left_arrow s))
  handle_key arrow_right c w s = done (with_output w (shell_handle_right_arrow s))
  handle_key tab c w s = shell_process_input s 32 >>= λ r. done (with_output w r)
  handle_key escape c w s =
      done (shell_print_prompt api (says w (writes (13 ∷ []) ∷ [])) (shell_clear_buffer s))
  handle_key ctrl_c c w s =
      done (shell_print_prompt api (says w (writes (text "^C\n") ∷ [])) (shell_clear_buffer s))
  handle_key ctrl_d c w s = done (
      if s.buffer_pos == 0
      then (says w (writes (text "exit\n") ∷ []), record s { state = exit })
      else (w, s))
  handle_key other c w s =
      if c == 0 then done (w, s) else (shell_process_input s c >>= λ r. done (with_output w r))

  -- The loop of `shell_run` over the events that the keyboard gives, which may end before the shell does.
  unfoldable pub run_loop : List KeyEvent → World F → Shell → Outcome (World F × Shell)
  run_loop [] w s = done (w, s)
  run_loop (e ∷ es) w s = elim (goes_on s.state) [
    | false ↦ done (w, s)
    | true ↦ (if e.pressed then handle_key e.key e.ascii w s else done (w, s)) >>= λ r.
        run_loop es (r.0) (r.1)
  ]

  unfoldable pub shell_run : List KeyEvent → World F → Shell → Outcome (World F × Shell)
  shell_run events w s = run_loop events w (record s { state = running })

-- The loop of `shell_cleanup`, with `left` strings to go from place `i` on.
pub free_history : ℕ → ℕ → Heap → List (Option Saved) → Outcome (Heap × List (Option Saved))
free_history zero i h hs = done (h, hs)
free_history (suc left) i h hs = elim (get_or hs i none) [
  | none ↦ free_history left (i + 1) h hs
  | some e ↦ elim (kfree h e.address) [
    | none ↦ stray
    | some h' ↦ free_history left (i + 1) h' (set hs i none)
  ]
]

pub shell_cleanup : Heap → Shell → Outcome (Heap × Shell)
shell_cleanup h s = free_history s.history_count 0 h s.history >>= λ r.
    done (r.0, shell_clear_buffer (record s { history = r.1 }))
