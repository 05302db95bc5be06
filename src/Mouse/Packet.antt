-- ===== src/Mouse/Packet.antt =====
-- `readmouse` of kernel/chr_drv/readmouse.c over the three bytes of a packet: how the pointer moves.
use os_lab2_gui.Prelude.{ℕ}
use os_lab2_gui.Message.Post.{Supply}
use os_lab2_gui.Mouse.{Mouse, MouseState, first_byte, second_byte, third_byte}

-- the state after a whole packet
abbrev pub packet : Supply → ℕ → ℕ → ℕ → MouseState → MouseState
packet supply b1 b2 b3 s =
    let s1 = first_byte supply b1 s in record s1 { mouse = third_byte b3 (second_byte b2 s1.mouse) }
