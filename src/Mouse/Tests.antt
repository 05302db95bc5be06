-- ===== src/Mouse/Tests.antt =====
-- Concrete packets of kernel/chr_drv/readmouse.c, and the theorems at them.
use os_lab2_gui.Prelude.{◌+◌, ◌*◌, ◌≡◌, refl, false, none, [], ◌∷◌, arith}
use os_lab2_gui.Prelude.Int.{pos, ◌+ℤ◌, ◌-ℤ◌}
use os_lab2_gui.Message.Post.{Supply, IsFresh, Ready}
use os_lab2_gui.Mouse.{
  MouseState, readmouse, first_byte, second_byte, third_byte, read_flags, post_click,
}
use os_lab2_gui.Mouse.Screen.{InScreen, read_bytes, read_bytes-InScreen}

abbrev supply : Supply
supply = record { at = λ i. 100 + 2 * i; fresh = λ i. 101 + 2 * i }

supply-IsFresh : IsFresh supply
supply-IsFresh = omega arith

-- the driver after an acknowledgement
abbrev start : MouseState
start = record {
  mouse = record {
    mouse_input_count = 1;
    mouse_left_down = false;
    mouse_right_down = false;
    x_overflow = false;
    y_overflow = false;
    x_sign = pos 0;
    y_sign = pos 0;
    x_position = pos 100;
    y_position = pos 100;
  };
  queue = record { list = none; mem = λ a. record { mid = pos 0; pid = pos 0; next = 0 } };
  allocs = 0;
}

start-Ready : Ready supply 0 start.queue []
start-Ready = record { holds = refl; new = λ i h. tt; apart = λ i h. tt }

-- 5 to the left and 7 down
packet_example-position :
    let mouse = (read_bytes supply (56 ∷ 251 ∷ 249 ∷ []) start).mouse in
    (mouse.x_position ≡ pos 95) × (mouse.y_position ≡ pos 107)
unfolding read_bytes readmouse first_byte second_byte third_byte read_flags post_click ◌+ℤ◌ ◌-ℤ◌
packet_example-position = (refl, refl)

read_bytes-InScreen_example : InScreen (read_bytes supply (9 ∷ 200 ∷ 3 ∷ 72 ∷ 1 ∷ []) start).mouse
read_bytes-InScreen_example =
    read_bytes-InScreen supply (9 ∷ 200 ∷ 3 ∷ 72 ∷ 1 ∷ []) start (omega arith)
