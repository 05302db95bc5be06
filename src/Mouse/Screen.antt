-- ===== src/Mouse/Screen.antt =====
-- `readmouse` of kernel/chr_drv/readmouse.c: where the pointer can be.
use os_lab2_gui.Prelude.{ℕ, List, [], ◌∷◌, arith}
use os_lab2_gui.Prelude.Int.{pos, ◌≤ℤ◌}
use os_lab2_gui.Mouse.{
  Mouse, MouseState, vga_width, vga_height, read_flags, first_byte, post_click, second_byte,
  third_byte, readmouse,
}
use os_lab2_gui.Message.Post.{Supply}

-- The pointer is on the screen, its edges included.
abbrev pub InScreen : Mouse → Type 0
InScreen mouse =
    (pos 0 ≤ℤ mouse.x_position)
    × (mouse.x_position ≤ℤ pos vga_width)
    × (pos 0 ≤ℤ mouse.y_position)
    × (mouse.y_position ≤ℤ pos vga_height)

-- one interrupt after another
unfoldable pub read_bytes : Supply → List ℕ → MouseState → MouseState
read_bytes supply [] s = s
read_bytes supply (b ∷ bs) s = read_bytes supply bs (readmouse supply b s)

second_byte-InScreen : (b : ℕ) (mouse : Mouse) → InScreen mouse → InScreen (second_byte b mouse)
unfolding second_byte
second_byte-InScreen b mouse h = ground arith

third_byte-InScreen : (b : ℕ) (mouse : Mouse) → InScreen mouse → InScreen (third_byte b mouse)
unfolding third_byte
third_byte-InScreen b mouse h = ground arith

first_byte-InScreen :
    (supply : Supply) (b : ℕ) (s : MouseState)
    → InScreen s.mouse
    → InScreen (first_byte supply b s).mouse
unfolding first_byte read_flags post_click
first_byte-InScreen supply b s h = ground arith

pub readmouse-InScreen :
    (supply : Supply) (b : ℕ) (s : MouseState)
    → InScreen s.mouse
    → InScreen (readmouse supply b s).mouse
unfolding readmouse
readmouse-InScreen supply b s h = ground (
  arith,
  first_byte-InScreen supply b s h,
  second_byte-InScreen b s.mouse h,
  third_byte-InScreen b s.mouse h,
)

-- Whatever bytes the device sends, a pointer that is on the screen stays there.
pub read_bytes-InScreen :
    (supply : Supply) (bs : List ℕ) (s : MouseState)
    → InScreen s.mouse
    → InScreen (read_bytes supply bs s).mouse
unfolding read_bytes
read_bytes-InScreen supply [] s h = h
read_bytes-InScreen supply (b ∷ bs) s h =
    read_bytes-InScreen supply bs (readmouse supply b s) (readmouse-InScreen supply b s h)
