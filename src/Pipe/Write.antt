-- ===== src/Pipe/Write.antt =====
-- The loop of `write_pipe` of fs/pipe.c, against the list of the bytes in the pipe.
use mathlib.Core.List.{append-nil, append_assoc}
use os_lab2_gui.Prelude.{
  ℕ, zero, suc, ◌+◌, ◌-◌, ◌%◌, ◌<◌, ◌≡◌, ◌≢◌, refl, sym, ap, ◌∙◌, inl, inr, Bool-cases, ==_iff,
  true, false, List, [], ◌∷◌, ◌++◌, length, take, drop, take-append-drop, length-take, length-drop,
  arith, ◌==◌,
}
use os_lab2_gui.Pipe.{Pipe, page_size, pipe_size, slice, fill, write_chars, write_chunk, write_loop}
use os_lab2_gui.Pipe.Read.{nonzero}
use os_lab2_gui.Pipe.Ring.{
  window, contents, InPage, window-append, window-cong, slice-window, fill-outside, fill-slice,
}

no_bytes : (bs : List ℕ) → length bs ≡ 0 → bs ≡ []
no_bytes [] e = refl
no_bytes (b ∷ bs) e = absurd (omega arith)

-- one turn
write_chunk-contents :
    (buf : List ℕ) (p : Pipe)
    → InPage p
    → let p' = write_chunk buf p in
      (contents p' ≡ contents p ++ take (write_chars (length buf) p) buf)
      × InPage p'
      × (pipe_size p' ≡ pipe_size p + write_chars (length buf) p)
unfolding write_chunk
write_chunk-contents buf p (h, t) = (
  ap (window page' p.tail) size
      ∙ window-append page' p.tail (pipe_size p) chars t
      ∙ ap (λ bs. bs ++ window page' ((p.tail + pipe_size p) % page_size) chars) front
      ∙ ap (λ u. contents p ++ window page' u chars) at_head
      ∙ ap (λ bs. contents p ++ bs)
          (sym (slice-window page' p.head chars (omega arith))
            ∙ ap (slice page' p.head) (sym len)
            ∙ fill-slice p.page p.head (take chars buf)),
  (omega arith, t),
  size,
)
  where
    chars : ℕ
    chars = write_chars (length buf) p

    page' : ℕ → ℕ
    page' = fill p.page p.head (take chars buf)

    len : length (take chars buf) ≡ chars
    len = length-take chars buf ∙ omega arith

    size : ((p.head + chars) % page_size + page_size - p.tail) % page_size ≡ pipe_size p + chars
    size = omega arith

    at_head : (p.tail + pipe_size p) % page_size ≡ p.head
    at_head = omega arith

    front : window page' p.tail (pipe_size p) ≡ contents p
    front = window-cong page' p.page p.tail (pipe_size p) t (λ i lt.
        fill-outside p.page p.head (take chars buf) ((p.tail + i) % page_size) (omega (arith, len)))

-- With fuel for the buffer the bytes that write_loop writes are the first of the buffer, behind those of
-- the pipe; it stops before the end of the buffer only when the pipe is full.
pub write_loop-contents :
    (fuel : ℕ) (buf : List ℕ) (p : Pipe)
    → length buf < fuel
    → InPage p
    → let (written, left, p') = write_loop fuel buf p in
      (contents p' ≡ contents p ++ written)
      × (written ++ left ≡ buf)
      × (length left ≢ 0 → pipe_size p' ≡ page_size - 1)
      × InPage p'
unfolding write_loop
write_loop-contents zero buf p lt inside = absurd (omega arith)
write_loop-contents (suc fuel) buf p lt inside = elim (Bool-cases (length buf == 0)) [
  | inl e ↦ rw e (
    sym (append-nil (contents p)),
    sym (no_bytes buf ((==_iff (length buf) 0).0 e)),
    (λ ne. absurd (ne refl)),
    inside,
  )
  | inr e ↦ elim (Bool-cases (page_size - 1 - pipe_size p == 0)) [
    | inl z ↦ rw (e, z) (sym (append-nil (contents p)), refl, (λ ne. full z), inside)
    | inr z ↦
        rw (e, z)
          (one_more (write_chunk-contents buf p inside) (
            write_loop-contents fuel (drop (write_chars (length buf) p) buf) (write_chunk buf p)
              (fewer e z) (write_chunk-contents buf p inside).1))
  ]
]
  where
    full : (page_size - 1 - pipe_size p == 0) ≡ true → pipe_size p ≡ page_size - 1
    full z = omega (arith, (==_iff (page_size - 1 - pipe_size p) 0).0 z)

    fewer :
        (length buf == 0) ≡ false
        → (page_size - 1 - pipe_size p == 0) ≡ false
        → length (drop (write_chars (length buf) p) buf) < fuel
    fewer e z = omega (
      arith,
      length-drop (write_chars (length buf) p) buf,
      nonzero (length buf) e,
      nonzero (page_size - 1 - pipe_size p) z,
      inside,
    )

    one_more :
        let chars = write_chars (length buf) p in
        let p1 = write_chunk buf p in
        (contents p1 ≡ contents p ++ take chars buf)
          × InPage p1
          × (pipe_size p1 ≡ pipe_size p + chars)
        → let (more, left, p2) = write_loop fuel (drop chars buf) p1 in
          (contents p2 ≡ contents p1 ++ more)
            × (more ++ left ≡ drop chars buf)
            × (length left ≢ 0 → pipe_size p2 ≡ page_size - 1)
            × InPage p2
          → (contents p2 ≡ contents p ++ (take chars buf ++ more))
            × (take chars buf ++ more ++ left ≡ buf)
            × (length left ≢ 0 → pipe_size p2 ≡ page_size - 1)
            × InPage p2
    one_more (c1, i1, s1) (c2, b2, d2, i2) =
        let chars : ℕ = write_chars (length buf) p in
        let more : List ℕ = (write_loop fuel (drop chars buf) (write_chunk buf p)).0 in
        let left : List ℕ = (write_loop fuel (drop chars buf) (write_chunk buf p)).1 in
        (
          c2 ∙ ap (λ bs. bs ++ more) c1 ∙ append_assoc (contents p) (take chars buf) more,
          append_assoc (take chars buf) more left
              ∙ ap (λ bs. take chars buf ++ bs) b2
              ∙ take-append-drop chars buf,
          d2,
          i2,
        )
