-- ===== src/Mouse.antt =====
-- kernel/chr_drv/readmouse.c: the mouse driver. The interrupt handler calls `readmouse` with each byte
-- of the device; three bytes make a packet: buttons and signs, then the two movements.
pub mod Screen
pub mod Steps
pub mod Packet
pub mod Click
mod Tests
use os_lab2_gui.Prelude.{ℕ, ◌+◌, ◌*◌, ◌/◌, ◌%◌, Bool, not, ◌&&◌, ◌||◌, ◌-◌, ◌==◌, if◌then◌else◌}
use os_lab2_gui.Prelude.Int.{ℤ, pos, negsuc, ◌+ℤ◌, ◌-ℤ◌, ltb_ℤ, eqb_ℤ}
use os_lab2_gui.Message.{MsgState}
use os_lab2_gui.Message.Post.{Supply, post_new}

abbrev pub cursor_side : ℕ
cursor_side = 6

abbrev pub vga_width : ℕ
vga_width = 320

abbrev pub vga_height : ℕ
vga_height = 200

-- the driver's static variables, with the flags that are only tested as Booleans
pub record Mouse : Type 0 where
  pub mouse_input_count : ℕ
  pub mouse_left_down : Bool
  pub mouse_right_down : Bool
  pub x_overflow : Bool
  pub y_overflow : Bool
  pub x_sign : ℤ
  pub y_sign : ℤ
  pub x_position : ℤ
  pub y_position : ℤ

-- the driver, the messages, and how many messages have been allocated
pub record MouseState : Type 0 where
  pub mouse : Mouse
  pub queue : MsgState
  pub allocs : ℕ

-- `mousecode & (1 << k)`, for `place` = 2 ^ k
abbrev pub has_flag : ℕ → ℕ → Bool
has_flag mousecode place = mousecode / place % 2 == 1

-- 0xffffff00 as an int, or 0
abbrev pub sign_of : Bool → ℤ
sign_of set = if set then negsuc 255 else pos 0

-- `sign | mousecode`: a byte takes the low eight bits, which are 0 in the sign
abbrev pub or_sign : ℤ → ℕ → ℤ
or_sign sign mousecode = sign +ℤ pos mousecode

abbrev pub msg_mouse_click_left : ℤ
msg_mouse_click_left = pos 1

abbrev pub msg_mouse_click_right : ℤ
msg_mouse_click_right = pos 2

-- what the first byte says
unfoldable pub read_flags : ℕ → Mouse → Mouse
read_flags mousecode mouse = record mouse {
  mouse_left_down = has_flag mousecode 1;
  mouse_right_down = has_flag mousecode 2;
  x_sign = sign_of (has_flag mousecode 16);
  y_sign = sign_of (has_flag mousecode 32);
  x_overflow = has_flag mousecode 64;
  y_overflow = has_flag mousecode 128;
}

-- `if (down) { … sys_post_message(msg); }`
unfoldable pub post_click : Supply → Bool → ℤ → MouseState → MouseState
post_click supply down mid s =
    if down
    then record s { queue = post_new supply mid s.allocs s.queue; allocs = s.allocs + 1 }
    else s

abbrev pub count_up : Mouse → Mouse
count_up mouse = record mouse { mouse_input_count = mouse.mouse_input_count + 1 }

-- `case 1`
unfoldable pub first_byte : Supply → ℕ → MouseState → MouseState
first_byte supply mousecode s =
    let mouse : Mouse = read_flags mousecode s.mouse in
    let left =
      post_click supply mouse.mouse_left_down msg_mouse_click_left (record s { mouse = mouse }) in
    let right = post_click supply mouse.mouse_right_down msg_mouse_click_right left in
    record right { mouse = count_up mouse }

abbrev pub button_down : Mouse → Bool
button_down mouse = mouse.mouse_left_down || mouse.mouse_right_down

-- the tests of `x_position` against the screen, one after the other
abbrev pub clip_x : ℤ → ℤ
clip_x x =
    let x1 : ℤ = if ltb_ℤ x (pos 0) then pos 20 else x in
    if ltb_ℤ (pos vga_width) x1 then pos (vga_width - 20) else x1

abbrev pub clip_y : ℤ → ℤ
clip_y y =
    let y1 : ℤ = if ltb_ℤ (pos vga_height) y then pos (vga_height - 10) else y in
    if ltb_ℤ y1 (pos 0) then pos 10 else y1

-- `case 2`
unfoldable pub second_byte : ℕ → Mouse → Mouse
second_byte mousecode mouse =
    if mouse.x_overflow && eqb_ℤ mouse.x_sign (pos 0)
    then count_up (record mouse { x_position = pos (3 * cursor_side) })
    else if mouse.x_overflow && not (eqb_ℤ mouse.x_sign (pos 0))
    then count_up (record mouse { x_position = pos (vga_width - 3 * cursor_side) })
    else (let moved : ℤ = mouse.x_position +ℤ or_sign mouse.x_sign mousecode in
        let kept : ℤ =
          if button_down mouse then moved -ℤ or_sign mouse.x_sign mousecode else moved in
        count_up (record mouse { x_position = clip_x kept }))

-- `case 3`; what `MAX_X` and `MAX_Y` get is not used
unfoldable pub third_byte : ℕ → Mouse → Mouse
third_byte mousecode mouse =
    let moved : ℤ = mouse.y_position -ℤ or_sign mouse.y_sign mousecode in
    let kept : ℤ = if button_down mouse then moved +ℤ or_sign mouse.y_sign mousecode else moved in
    let y : ℤ = clip_y kept in
    let edge : ℤ =
      if mouse.y_overflow && eqb_ℤ mouse.y_sign (pos 0)
      then pos (2 * cursor_side)
      else if mouse.y_overflow && not (eqb_ℤ mouse.y_sign (pos 0))
      then pos (vga_height - 2 * cursor_side)
      else y in
    record mouse { y_position = edge; mouse_input_count = 1 }

-- `readmouse(mousecode)`; the device acknowledges a command with 0xFA
unfoldable pub readmouse : Supply → ℕ → MouseState → MouseState
readmouse supply mousecode s =
    if mousecode == 250
    then record s { mouse = record s.mouse { mouse_input_count = 1 } }
    else if s.mouse.mouse_input_count == 1
    then first_byte supply mousecode s
    else if s.mouse.mouse_input_count == 2
    then record s { mouse = second_byte mousecode s.mouse }
    else if s.mouse.mouse_input_count == 3
    then record s { mouse = third_byte mousecode s.mouse }
    else s
