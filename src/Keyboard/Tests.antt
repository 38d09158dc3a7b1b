-- ===== src/Keyboard/Tests.antt =====
-- The keyboard of keyboard.c at concrete keys.
use curnel.Prelude.{
  ℕ, ◌≡◌, arith, false, [], ◌∷◌, ◌++◌, replicate, length-replicate, ◌==◌, if◌then◌else◌,
}
use curnel.Keyboard.{normal, Keyboard, keyboard_buffer_put}
use curnel.Keyboard.Ring.{IsRing, typed, waiting, put-typed}

-- One character waits, at the last place of the ring.
abbrev wrapping : Keyboard
wrapping = record {
  shift_pressed = false;
  ctrl_pressed = false;
  alt_pressed = false;
  caps_lock = false;
  num_lock = false;
  scroll_lock = false;
  mode = normal;
  buffer = replicate 256 97;
  buffer_start = 255;
  buffer_end = 0;
}

wrapping-IsRing : IsRing wrapping
wrapping-IsRing = record {
  full = length-replicate {A = ℕ} 256 97;
  starts = omega arith;
  ends = omega arith;
}

put-typed_example :
    (typed (keyboard_buffer_put 98 wrapping)
      ≡ (if waiting wrapping == 255 then typed wrapping else typed wrapping ++ (98 ∷ [])))
    × IsRing (keyboard_buffer_put 98 wrapping)
put-typed_example = put-typed wrapping 98 wrapping-IsRing
