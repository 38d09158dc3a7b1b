-- ===== src/Keyboard.antt =====
-- keyboard.c: the ring of 256 typed characters and the interrupt handler, which turns scan codes into
-- characters. What the handler writes to ports is a list of ports with bytes.
pub mod Ring
mod Tests
use Prim.Native.Nat.{bit_and}
use curnel.Prelude.{
  ℕ, zero, suc, ◌+◌, ◌-◌, ◌%◌, ◌^◌, Bool, true, false, not, ◌&&◌, ◌||◌, Option, none, some, List,
  [], ◌∷◌, ◌++◌, get_or, set, replicate, ltb, leb, ◌==◌, if◌then◌else◌, minus_one,
}

-- `KEYMODE_NORMAL` to `KEYMODE_RELEASE`
pub data Mode : Type 0 where
  normal extended release : Mode

-- `keyboard_state_t`
pub record Keyboard : Type 0 where
  pub shift_pressed : Bool
  pub ctrl_pressed : Bool
  pub alt_pressed : Bool
  pub caps_lock : Bool
  pub num_lock : Bool
  pub scroll_lock : Bool
  pub mode : Mode
  pub buffer : List ℕ
  pub buffer_start : ℕ
  pub buffer_end : ℕ

abbrev kbd_us_lowercase : List ℕ
kbd_us_lowercase =
    0 ∷ 0 ∷ 49 ∷ 50 ∷ 51 ∷ 52 ∷ 53 ∷ 54 ∷ 55 ∷ 56 ∷ 57 ∷ 48 ∷ 45 ∷ 61 ∷ 8 ∷ 9 ∷ 113 ∷ 119 ∷ 101
    ∷ 114 ∷ 116 ∷ 121 ∷ 117 ∷ 105 ∷ 111 ∷ 112 ∷ 91 ∷ 93 ∷ 10 ∷ 0 ∷ 97 ∷ 115 ∷ 100 ∷ 102 ∷ 103 ∷ 104
    ∷ 106 ∷ 107 ∷ 108 ∷ 59 ∷ 39 ∷ 96 ∷ 0 ∷ 92 ∷ 122 ∷ 120 ∷ 99 ∷ 118 ∷ 98 ∷ 110 ∷ 109 ∷ 44 ∷ 46 ∷ 47
    ∷ 0 ∷ 42 ∷ 0 ∷ 32 ∷ 0 ∷ 0 ∷ 0 ∷ 0 ∷ 0 ∷ 0 ∷ 0 ∷ 0 ∷ 0 ∷ 0 ∷ 0 ∷ 0 ∷ 0 ∷ 0 ∷ 0 ∷ 0 ∷ 0 ∷ 45 ∷ 0
    ∷ 0 ∷ 0 ∷ 43 ∷ 0 ∷ 0 ∷ 0 ∷ 0 ∷ 0 ∷ 0 ∷ 0 ∷ 0 ∷ 0 ∷ 0 ∷ 0 ∷ 0 ∷ 0 ∷ 0 ∷ 0 ∷ 0 ∷ 0 ∷ 0 ∷ 0 ∷ 0 ∷ 0
    ∷ 0 ∷ 0 ∷ 0 ∷ 0 ∷ 0 ∷ 0 ∷ 0 ∷ 0 ∷ 0 ∷ 0 ∷ 0 ∷ 0 ∷ 0 ∷ 0 ∷ 0 ∷ 0 ∷ 0 ∷ 0 ∷ 0 ∷ 0 ∷ 0 ∷ 0 ∷ 0 ∷ 0
    ∷ 0 ∷ 0 ∷ 0 ∷ []

abbrev kbd_us_uppercase : List ℕ
kbd_us_uppercase =
    0 ∷ 0 ∷ 33 ∷ 64 ∷ 35 ∷ 36 ∷ 37 ∷ 94 ∷ 38 ∷ 42 ∷ 40 ∷ 41 ∷ 95 ∷ 43 ∷ 8 ∷ 9 ∷ 81 ∷ 87 ∷ 69 ∷ 82
    ∷ 84 ∷ 89 ∷ 85 ∷ 73 ∷ 79 ∷ 80 ∷ 123 ∷ 125 ∷ 10 ∷ 0 ∷ 65 ∷ 83 ∷ 68 ∷ 70 ∷ 71 ∷ 72 ∷ 74 ∷ 75 ∷ 76
    ∷ 58 ∷ 34 ∷ 126 ∷ 0 ∷ 124 ∷ 90 ∷ 88 ∷ 67 ∷ 86 ∷ 66 ∷ 78 ∷ 77 ∷ 60 ∷ 62 ∷ 63 ∷ 0 ∷ 42 ∷ 0 ∷ 32
    ∷ 0 ∷ 0 ∷ 0 ∷ 0 ∷ 0 ∷ 0 ∷ 0 ∷ 0 ∷ 0 ∷ 0 ∷ 0 ∷ 0 ∷ 0 ∷ 0 ∷ 0 ∷ 0 ∷ 0 ∷ 45 ∷ 0 ∷ 0 ∷ 0 ∷ 43 ∷ 0
    ∷ 0 ∷ 0 ∷ 0 ∷ 0 ∷ 0 ∷ 0 ∷ 0 ∷ 0 ∷ 0 ∷ 0 ∷ 0 ∷ 0 ∷ 0 ∷ 0 ∷ 0 ∷ 0 ∷ 0 ∷ 0 ∷ 0 ∷ 0 ∷ 0 ∷ 0 ∷ 0 ∷ 0
    ∷ 0 ∷ 0 ∷ 0 ∷ 0 ∷ 0 ∷ 0 ∷ 0 ∷ 0 ∷ 0 ∷ 0 ∷ 0 ∷ 0 ∷ 0 ∷ 0 ∷ 0 ∷ 0 ∷ 0 ∷ 0 ∷ 0 ∷ 0 ∷ 0 ∷ 0 ∷ 0 ∷ []

abbrev pub keyboard_buffer_empty : Keyboard → Bool
keyboard_buffer_empty s = s.buffer_start == s.buffer_end

abbrev pub keyboard_buffer_full : Keyboard → Bool
keyboard_buffer_full s = (s.buffer_end + 1) % 256 == s.buffer_start

unfoldable pub keyboard_buffer_put : ℕ → Keyboard → Keyboard
keyboard_buffer_put c s =
    if keyboard_buffer_full s
    then s
    else record s { buffer = set s.buffer s.buffer_end c; buffer_end = (s.buffer_end + 1) % 256 }

unfoldable pub keyboard_buffer_get : Keyboard → Keyboard × ℕ
keyboard_buffer_get s =
    if keyboard_buffer_empty s
    then (s, 0)
    else (record s { buffer_start = (s.buffer_start + 1) % 256 }, get_or s.buffer s.buffer_start 0)

keyboard_update_leds : Keyboard → List (ℕ × ℕ)
keyboard_update_leds s =
    let scroll = if s.scroll_lock then 1 else 0 in
    let num = if s.num_lock then 2 else 0 in
    let caps = if s.caps_lock then 4 else 0 in (100, 237) ∷ (96, scroll + num + caps) ∷ []

pub keyboard_init : Keyboard × List (ℕ × ℕ)
keyboard_init = (
  record {
    shift_pressed = false;
    ctrl_pressed = false;
    alt_pressed = false;
    caps_lock = false;
    num_lock = false;
    scroll_lock = false;
    mode = normal;
    buffer = replicate 256 0;
    buffer_start = 0;
    buffer_end = 0;
  },
  (100, 244) ∷ [],
)

-- The character of a key, 0 for none; `c - 'a' + 1` with Ctrl.
abbrev key_char : Keyboard → ℕ → ℕ
key_char s scancode =
    let upper = if s.shift_pressed then not s.caps_lock else s.caps_lock in
    let c = get_or (if upper then kbd_us_uppercase else kbd_us_lowercase) scancode 0 in
    if s.ctrl_pressed && leb 97 c && leb c 122 then c - 96 else c

-- The `default` case of the second `switch`.
type_key : Keyboard → ℕ → Keyboard
type_key s scancode =
    let c = key_char s scancode in
    if ltb scancode 128 && not (c == 0) then keyboard_buffer_put c s else s

release_key : Keyboard → ℕ → Keyboard
release_key s key =
    let s =
      if key == 42 || key == 54
      then record s { shift_pressed = false }
      else if key == 29
      then record s { ctrl_pressed = false }
      else if key == 56
      then record s { alt_pressed = false }
      else s in
    record s { mode = normal }

press_key : Keyboard → ℕ → Keyboard × List (ℕ × ℕ)
press_key s key =
    if key == 42 || key == 54
    then (record s { shift_pressed = true; mode = normal }, [])
    else if key == 29
    then (record s { ctrl_pressed = true; mode = normal }, [])
    else if key == 56
    then (record s { alt_pressed = true; mode = normal }, [])
    else if key == 58
    then (
      record s { caps_lock = not s.caps_lock; mode = normal },
      keyboard_update_leds (record s { caps_lock = not s.caps_lock }),
    )
    else if key == 69
    then (
      record s { num_lock = not s.num_lock; mode = normal },
      keyboard_update_leds (record s { num_lock = not s.num_lock }),
    )
    else if key == 70
    then (
      record s { scroll_lock = not s.scroll_lock; mode = normal },
      keyboard_update_leds (record s { scroll_lock = not s.scroll_lock }),
    )
    else (record (type_key s key) { mode = normal }, [])

-- `scancode` is the byte that `inb` reads.
keyboard_handler : Keyboard → ℕ → Keyboard × List (ℕ × ℕ)
keyboard_handler s scancode =
    if scancode == 224
    then (record s { mode = extended }, [])
    else if not (bit_and scancode 128 == 0)
    then (release_key s (scancode - 128), [])
    else press_key s scancode

keyboard_getchar_nonblock : Keyboard → Keyboard × ℕ
keyboard_getchar_nonblock s =
    if keyboard_buffer_empty s then (s, minus_one) else keyboard_buffer_get s

-- `interrupt` is what happens at `sti; hlt`; without fuel for the wait there is no result.
keyboard_getchar : (Keyboard → Keyboard) → ℕ → Keyboard → Option (Keyboard × ℕ)
keyboard_getchar interrupt zero s = none
keyboard_getchar interrupt (suc f) s = elim (keyboard_buffer_empty s) [
  | true ↦ keyboard_getchar interrupt f (interrupt s)
  | false ↦ some (keyboard_buffer_get s)
]

-- The loop of `keyboard_read` at index `i` with fuel `f` for its turns, each
-- character with fuel `w`: the caller's buffer and the number of characters. Backspace steps back.
read_from :
    (Keyboard → Keyboard) → ℕ → ℕ → Keyboard → List ℕ → ℕ → ℕ → Option (Keyboard × List ℕ × ℕ)
read_from interrupt w zero s buffer i count = none
read_from interrupt w (suc f) s buffer i count = elim (ltb i count) [
  | false ↦ some (s, buffer, i)
  | true ↦ elim (keyboard_getchar interrupt w s) [
    | none ↦ none
    | some r ↦ elim ((r.1) == 10) [
      | true ↦ some (r.0, set buffer i (r.1), i + 1)
      | false ↦ elim ((r.1) == 8) [
        | true ↦ read_from interrupt w f (r.0) buffer (i - 1) count
        | false ↦ read_from interrupt w f (r.0) (set buffer i (r.1)) (i + 1) count
      ]
    ]
  ]
]

pub keyboard_read :
    (Keyboard → Keyboard) → ℕ → ℕ → Keyboard → List ℕ → ℕ → Option (Keyboard × List ℕ × ℕ)
keyboard_read interrupt w f s buffer count = read_from interrupt w f s buffer 0 count
