-- ===== src/Mouse/Click.antt =====
-- The messages that `readmouse` of kernel/chr_drv/readmouse.c posts for the mouse's buttons.
use mathlib.Core.List.{append-nil, append_assoc}
use mathlib.Core.Path.{subst}
use os_lab2_gui.Prelude.{
  ℕ, ◌≡◌, refl, sym, ap, ◌∙◌, Bool, true, false, List, [], ◌∷◌, ◌++◌, arith, if◌then◌else◌,
}
use os_lab2_gui.Prelude.Int.{ℤ, negsuc}
use os_lab2_gui.Message.Queue.{Body}
use os_lab2_gui.Message.Refine.{bodies}
use os_lab2_gui.Message.Post.{Supply, IsFresh, Ready, post_new-Ready}
use os_lab2_gui.Mouse.{
  MouseState, has_flag, msg_mouse_click_left, msg_mouse_click_right, read_flags, post_click,
  first_byte, readmouse,
}
use os_lab2_gui.Mouse.Screen.{read_bytes}
use os_lab2_gui.Mouse.Steps.{IsData, readmouse-first, readmouse-acknowledge, first_byte-count}

-- the messages of one button
abbrev pub click : Bool → ℤ → List Body
click down mid = if down then (mid, negsuc 0) ∷ [] else []

-- the messages of a first byte: left before right
abbrev pub clicks : ℕ → List Body
clicks b = click (has_flag b 1) msg_mouse_click_left ++ click (has_flag b 2) msg_mouse_click_right

-- one button's message
post_click-Ready :
    (supply : Supply) (fresh : IsFresh supply) (down : Bool) (mid : ℤ) (s : MouseState)
    (ys : List ℕ)
    → Ready supply s.allocs s.queue ys
    → let s' = post_click supply down mid s in
      (zs : List ℕ) × Ready supply s'.allocs s'.queue zs
      × (bodies s'.queue.mem zs ≡ bodies s.queue.mem ys ++ click down mid)
unfolding post_click
post_click-Ready supply fresh true mid s ys r =
    let (r', b) = post_new-Ready supply fresh mid s.allocs s.queue ys r in
    (ys ++ supply.at s.allocs ∷ [], r', b)
post_click-Ready supply fresh false mid s ys r = (ys, r, sym (append-nil (bodies s.queue.mem ys)))

-- The first byte of a packet posts a message for each button that is down, the left one before the
-- right one, behind the messages of the queue.
pub first_byte-clicks :
    (supply : Supply) (fresh : IsFresh supply) (b : ℕ) (s : MouseState) (ys : List ℕ)
    → Ready supply s.allocs s.queue ys
    → let s' = first_byte supply b s in
      (zs : List ℕ) × Ready supply s'.allocs s'.queue zs
      × (bodies s'.queue.mem zs ≡ bodies s.queue.mem ys ++ clicks b)
unfolding first_byte read_flags
first_byte-clicks supply fresh b s ys r =
    let flagged : MouseState = record s { mouse = read_flags b s.mouse } in
    let left : MouseState = post_click supply (has_flag b 1) msg_mouse_click_left flagged in
    let (zs, r1, b1) =
      post_click-Ready supply fresh (has_flag b 1) msg_mouse_click_left flagged ys r in
    let (zs', r2, b2) =
      post_click-Ready supply fresh (has_flag b 2) msg_mouse_click_right left zs r1 in
    (
      zs',
      r2,
      b2
          ∙ ap (λ k. k ++ click (has_flag b 2) msg_mouse_click_right) b1
          ∙ append_assoc (bodies s.queue.mem ys) (click (has_flag b 1) msg_mouse_click_left)
              (click (has_flag b 2) msg_mouse_click_right),
    )

first_byte-stays :
    (supply : Supply) (b : ℕ) (s : MouseState)
    → let mouse' = (first_byte supply b s).mouse in
      (mouse'.x_position ≡ s.mouse.x_position) × (mouse'.y_position ≡ s.mouse.y_position)
unfolding first_byte read_flags post_click
first_byte-stays supply b s = ground arith

read_bytes-acknowledge :
    (supply : Supply) (b1 b3 : ℕ) (s : MouseState)
    → IsData b1
    → IsData b3
    → s.mouse.mouse_input_count ≡ 1
    → let s1 = first_byte supply b1 s in
      read_bytes supply (b1 ∷ 250 ∷ b3 ∷ []) s
      ≡ first_byte supply b3 (record s1 { mouse = record s1.mouse { mouse_input_count = 1 } })
unfolding read_bytes
read_bytes-acknowledge supply b1 b3 s d1 d3 one =
    ap (λ t. readmouse supply b3 (readmouse supply 250 t)) (readmouse-first supply b1 s d1.1 one)
    ∙ ap (readmouse supply b3) (readmouse-acknowledge supply s1)
    ∙ readmouse-first supply b3 (record s1 { mouse = record s1.mouse { mouse_input_count = 1 } })
        d3.1 refl
  where
    s1 : MouseState
    s1 = first_byte supply b1 s

-- 0xFA, which is also the movement by -6, ends the packet: the pointer stays, and the next byte, a
-- movement too, is read as the buttons of a new packet, with messages for clicks that nobody made.
pub acknowledge-in_packet :
    (supply : Supply) (fresh : IsFresh supply) (b1 b3 : ℕ) (s : MouseState) (ys : List ℕ)
    → IsData b1
    → IsData b3
    → s.mouse.mouse_input_count ≡ 1
    → Ready supply s.allocs s.queue ys
    → let s' = read_bytes supply (b1 ∷ 250 ∷ b3 ∷ []) s in
      (s'.mouse.x_position ≡ s.mouse.x_position)
      × (s'.mouse.y_position ≡ s.mouse.y_position)
      × (s'.mouse.mouse_input_count ≡ 2)
      × ((zs : List ℕ) × Ready supply s'.allocs s'.queue zs
          × (bodies s'.queue.mem zs ≡ bodies s.queue.mem ys ++ clicks b1 ++ clicks b3))
acknowledge-in_packet supply fresh b1 b3 s ys d1 d3 one r =
    let s1 : MouseState = first_byte supply b1 s in
    let s2 : MouseState = record s1 { mouse = record s1.mouse { mouse_input_count = 1 } } in
    let (x1, y1) = first_byte-stays supply b1 s in
    let (x3, y3) = first_byte-stays supply b3 s2 in
    let (zs, r1, c1) = first_byte-clicks supply fresh b1 s ys r in
    let (zs', r3, c3) = first_byte-clicks supply fresh b3 s2 zs r1 in
    subst
      (λ t.
        (t.mouse.x_position ≡ s.mouse.x_position)
        × (t.mouse.y_position ≡ s.mouse.y_position)
        × (t.mouse.mouse_input_count ≡ 2)
        × ((zs : List ℕ) × Ready supply t.allocs t.queue zs
            × (bodies t.queue.mem zs ≡ bodies s.queue.mem ys ++ clicks b1 ++ clicks b3)))
      (sym (read_bytes-acknowledge supply b1 b3 s d1 d3 one))
      (
        x3 ∙ x1,
        y3 ∙ y1,
        first_byte-count supply b3 s2 refl,
        (zs', r3, c3 ∙ ap (λ k. k ++ clicks b3) c1),
      )
