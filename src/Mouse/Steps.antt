-- ===== src/Mouse/Steps.antt =====
-- One byte of `readmouse` of kernel/chr_drv/readmouse.c, by the count of the packet.
use os_lab2_gui.Prelude.{ℕ, ◌-◌, ◌<◌, ◌≡◌, ◌≢◌, refl, Bool, arith, if◌then◌else◌}
use os_lab2_gui.Prelude.Int.{ℤ, pos, negsuc}
use os_lab2_gui.Message.Post.{Supply}
use os_lab2_gui.Mouse.{
  count_up, Mouse, MouseState, read_flags, post_click, first_byte, second_byte, third_byte,
  readmouse,
}

-- a byte that is no acknowledgement
abbrev pub IsData : ℕ → Type 0
IsData b = (b < 256) × (b ≢ 250)

-- the movement that the nine bits of a sign and a byte say, in two's complement
abbrev pub displacement : Bool → ℕ → ℤ
displacement negative b = if negative then negsuc (255 - b) else pos b

pub readmouse-first :
    (supply : Supply) (b : ℕ) (s : MouseState)
    → b ≢ 250
    → s.mouse.mouse_input_count ≡ 1
    → readmouse supply b s ≡ first_byte supply b s
unfolding readmouse
readmouse-first supply b s ne one = ground arith

pub readmouse-second :
    (supply : Supply) (b : ℕ) (s : MouseState)
    → b ≢ 250
    → s.mouse.mouse_input_count ≡ 2
    → readmouse supply b s ≡ record s { mouse = second_byte b s.mouse }
unfolding readmouse
readmouse-second supply b s ne two = ground arith

pub readmouse-third :
    (supply : Supply) (b : ℕ) (s : MouseState)
    → b ≢ 250
    → s.mouse.mouse_input_count ≡ 3
    → readmouse supply b s ≡ record s { mouse = third_byte b s.mouse }
unfolding readmouse
readmouse-third supply b s ne three = ground arith

pub readmouse-acknowledge :
    (supply : Supply) (s : MouseState)
    → readmouse supply 250 s ≡ record s { mouse = record s.mouse { mouse_input_count = 1 } }
unfolding readmouse
readmouse-acknowledge supply s = refl

pub first_byte-count :
    (supply : Supply) (b : ℕ) (s : MouseState)
    → s.mouse.mouse_input_count ≡ 1
    → (first_byte supply b s).mouse.mouse_input_count ≡ 2
unfolding first_byte read_flags post_click
first_byte-count supply b s one = ground arith

pub second_byte-count :
    (b : ℕ) (mouse : Mouse)
    → mouse.mouse_input_count ≡ 2
    → (second_byte b mouse).mouse_input_count ≡ 3
unfolding second_byte
second_byte-count b mouse two = ground arith

pub first_byte-mouse :
    (supply : Supply) (b : ℕ) (s : MouseState)
    → (first_byte supply b s).mouse ≡ count_up (read_flags b s.mouse)
unfolding first_byte post_click
first_byte-mouse supply b s = ground arith
