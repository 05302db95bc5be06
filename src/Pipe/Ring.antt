-- ===== src/Pipe/Ring.antt =====
-- fs/pipe.c: the bytes in a pipe, as a list.
use os_lab2_gui.Prelude.{
  ℕ, zero, suc, ◌+◌, ◌%◌, ◌≤◌, ◌<◌, ◌≡◌, refl, sym, ap, ◌∙◌, ◌⊎◌, List, [], ◌∷◌, ◌++◌, length,
  arith,
}
use os_lab2_gui.Prelude.Table.{update, update_ne, update_self}
use os_lab2_gui.Pipe.{Pipe, page_size, pipe_size, slice, fill}

-- `n` bytes of the ring from `t` on
abbrev pub window : (ℕ → ℕ) → ℕ → ℕ → List ℕ
window page t zero = []
window page t (suc n) = page t ∷ window page ((t + 1) % page_size) n

abbrev pub contents : Pipe → List ℕ
contents p = window p.page p.tail (pipe_size p)

-- Both marks are inside the page.
abbrev pub InPage : Pipe → Type 0
InPage p = (p.head < page_size) × (p.tail < page_size)

pub window-append :
    (page : ℕ → ℕ) (t a b : ℕ)
    → t < page_size
    → window page t (a + b) ≡ window page t a ++ window page ((t + a) % page_size) b
window-append page t zero b lt = ap (window page t) none_more ∙ ap (λ u. window page u b) same
  where
    none_more : 0 + b ≡ b
    none_more = omega arith

    same : t ≡ (t + 0) % page_size
    same = omega arith
window-append page t (suc a) b lt =
    ap (window page t) one_more
    ∙ ap (λ bs. page t ∷ bs) (window-append page ((t + 1) % page_size) a b (omega arith))
    ∙ ap (λ u. page t ∷ (window page ((t + 1) % page_size) a ++ window page u b)) same
  where
    one_more : suc a + b ≡ suc (a + b)
    one_more = omega arith

    same : ((t + 1) % page_size + a) % page_size ≡ (t + suc a) % page_size
    same = omega arith

pub slice-window : (page : ℕ → ℕ) (t n : ℕ) → t + n ≤ page_size → slice page t n ≡ window page t n
slice-window page t zero le = refl
slice-window page t (suc zero) le = refl
slice-window page t (suc (suc n)) le =
    ap (λ bs. page t ∷ bs)
      (slice-window page (t + 1) (suc n) (omega arith) ∙ ap (λ u. window page u (suc n)) next)
  where
    next : t + 1 ≡ (t + 1) % page_size
    next = omega arith

pub window-cong :
    (page page' : ℕ → ℕ) (t n : ℕ)
    → t < page_size
    → ((i : ℕ) → i < n → page ((t + i) % page_size) ≡ page' ((t + i) % page_size))
    → window page t n ≡ window page' t n
window-cong page page' t zero lt same = refl
window-cong page page' t (suc n) lt same =
    ap (λ b. b ∷ window page ((t + 1) % page_size) n)
      (ap page here ∙ same 0 (omega arith) ∙ ap page' (sym here))
    ∙ ap (λ bs. page' t ∷ bs)
        (window-cong page page' ((t + 1) % page_size) n (omega arith)
          (λ i below. ap page (next i) ∙ same (suc i) (omega arith) ∙ ap page' (sym (next i))))
  where
    here : t ≡ (t + 0) % page_size
    here = omega arith

    next : (i : ℕ) → ((t + 1) % page_size + i) % page_size ≡ (t + suc i) % page_size
    next i = omega arith

pub fill-outside :
    (page : ℕ → ℕ) (h : ℕ) (bs : List ℕ) (a : ℕ)
    → (a < h) ⊎ (h + length bs ≤ a)
    → fill page h bs a ≡ page a
fill-outside page h [] a out = refl
fill-outside page h (b ∷ bs) a out =
    fill-outside (update page h b) (h + 1) bs a (omega arith) ∙ update_ne page h b a (omega arith)

pub fill-slice : (page : ℕ → ℕ) (h : ℕ) (bs : List ℕ) → slice (fill page h bs) h (length bs) ≡ bs
fill-slice page h [] = refl
fill-slice page h (b ∷ bs) =
    ap (λ v. v ∷ slice (fill page h (b ∷ bs)) (h + 1) (length bs))
      (fill-outside (update page h b) (h + 1) bs h (omega arith) ∙ update_self page h b)
    ∙ ap (λ t. b ∷ t) (fill-slice (update page h b) (h + 1) bs)
