-- ===== src/Pipe/Read.antt =====
-- The loop of `read_pipe` of fs/pipe.c, against the list of the bytes in the pipe.
use os_lab2_gui.Prelude.{
  ℕ, zero, suc, ◌+◌, ◌-◌, ◌%◌, ◌<◌, ◌≡◌, ◌≢◌, refl, sym, ap, ◌∙◌, inl, inr, Bool-cases, ==_iff,
  false, [], ◌++◌, length, length-append, arith, ◌==◌,
}
use mathlib.Core.List.{append_assoc}
use os_lab2_gui.Pipe.{Pipe, page_size, pipe_size, slice, read_chars, read_chunk, read_loop}
use os_lab2_gui.Pipe.Ring.{window, contents, InPage, window-append, slice-window}

pub nonzero : (n : ℕ) → (n == 0) ≡ false → n ≢ 0
nonzero n e = ground arith

length-slice : (page : ℕ → ℕ) (t n : ℕ) → length (slice page t n) ≡ n
length-slice page t zero = refl
length-slice page t (suc n) = ap suc (length-slice page (t + 1) n)

-- one turn
read_chunk-contents :
    (count : ℕ) (p : Pipe)
    → InPage p
    → let (bytes, p') = read_chunk count p in
      (contents p ≡ bytes ++ contents p')
      × (length bytes ≡ read_chars count p)
      × InPage p'
      × (pipe_size p' ≡ pipe_size p - read_chars count p)
unfolding read_chunk
read_chunk-contents count p (h, t) = (
  ap (window p.page p.tail) split
      ∙ window-append p.page p.tail (read_chars count p) (pipe_size p - read_chars count p) t
      ∙ ap
          (λ bs.
            bs
            ++ window p.page ((p.tail + read_chars count p) % page_size)
                (pipe_size p - read_chars count p))
          (sym (slice-window p.page p.tail (read_chars count p) (omega arith)))
      ∙ ap
          (λ n.
            slice p.page p.tail (read_chars count p)
            ++ window p.page ((p.tail + read_chars count p) % page_size) n)
          (sym size),
  length-slice p.page p.tail (read_chars count p),
  (h, omega arith),
  size,
)
  where
    split : pipe_size p ≡ read_chars count p + (pipe_size p - read_chars count p)
    split = omega arith

    size :
        (p.head + page_size - (p.tail + read_chars count p) % page_size) % page_size
        ≡ pipe_size p - read_chars count p
    size = omega arith

-- With fuel for `count` turns the bytes that read_loop returns are the first of the pipe and those left are
-- still in it; it stops before `count` bytes only when the pipe is empty.
pub read_loop-contents :
    (fuel count : ℕ) (p : Pipe)
    → count < fuel
    → InPage p
    → let (bytes, left, p') = read_loop fuel count p in
      (contents p ≡ bytes ++ contents p')
      × (length bytes + left ≡ count)
      × (left ≢ 0 → contents p' ≡ [])
      × InPage p'
unfolding read_loop
read_loop-contents zero count p lt inside = absurd (omega arith)
read_loop-contents (suc fuel) count p lt inside = elim (Bool-cases (count == 0)) [
  | inl e ↦ rw e (refl, omega (arith, (==_iff count 0).0 e), (λ ne. absurd (ne refl)), inside)
  | inr e ↦ elim (Bool-cases (pipe_size p == 0)) [
    | inl z ↦
        rw (e, z)
          (
            refl,
            omega arith,
            (λ ne. ap (window p.page p.tail) ((==_iff (pipe_size p) 0).0 z)),
            inside,
          )
    | inr z ↦
        rw (e, z)
          (one_more e z (read_chunk-contents count p inside) (
            read_loop-contents fuel (count - read_chars count p) (read_chunk count p).1 (fewer e z)
              (read_chunk-contents count p inside).2))
  ]
]
  where
    fewer : (count == 0) ≡ false → (pipe_size p == 0) ≡ false → count - read_chars count p < fuel
    fewer e z = omega (arith, nonzero count e, nonzero (pipe_size p) z, inside)

    one_more :
        (count == 0) ≡ false
        → (pipe_size p == 0) ≡ false
        → let (bytes, p1) = read_chunk count p in
          (contents p ≡ bytes ++ contents p1)
            × (length bytes ≡ read_chars count p)
            × InPage p1
            × (pipe_size p1 ≡ pipe_size p - read_chars count p)
          → let (more, left, p2) = read_loop fuel (count - read_chars count p) p1 in
            (contents p1 ≡ more ++ contents p2)
              × (length more + left ≡ count - read_chars count p)
              × (left ≢ 0 → contents p2 ≡ [])
              × InPage p2
            → (contents p ≡ bytes ++ more ++ contents p2)
              × (length (bytes ++ more) + left ≡ count)
              × (left ≢ 0 → contents p2 ≡ [])
              × InPage p2
    one_more e z (c1, l1, i1, s1) (c2, l2, d2, i2) = (
      c1
          ∙ ap (λ bs. (read_chunk count p).0 ++ bs) c2
          ∙ sym (
              append_assoc (read_chunk count p).0
                (read_loop fuel (count - read_chars count p) (read_chunk count p).1).0
                (contents (read_loop fuel (count - read_chars count p) (read_chunk count p).1).2)),
      omega (
        arith,
        l1,
        l2,
        length-append (read_chunk count p).0
            (read_loop fuel (count - read_chars count p) (read_chunk count p).1).0,
      ),
      d2,
      i2,
    )
