-- ===== src/Inode/Release.antt =====
-- fs/inode.c: get_pipe_inode, and the two calls of iput that end the pipe.
use os_lab2_gui.Prelude.{ℕ, ◌<◌, ◌≡◌, ◌≢◌, refl, true, false, some, arith, ◌==◌, ap, ◌∙◌, sym}
use os_lab2_gui.Prelude.Table.{update, update_self, update_ne}
use os_lab2_gui.Memory.{Memory, ok, get_free_page, free_page}
use os_lab2_gui.Memory.Frames.{free_page-get_free_page}
use os_lab2_gui.Inode.{
  Inode, Inodes, returns, go_on, no_inode, set_inode, is_clean, put_pipe, iput, fill_pipe,
  get_pipe_inode,
}
use os_lab2_gui.Inode.Empty.{slot_after, IsFirst, get_empty_inode-first}

-- the inode of a pipe with `users` users
abbrev pipe_inode : ℕ → ℕ → Inode
pipe_inode page users = record no_inode { i_size = page; i_count = users; i_pipe = true }

abbrev no_pipe : Inode → Inode
no_pipe n = record n { i_count = 0; i_dirt = false; i_pipe = false }

iput-shared :
    (i page : ℕ) (s : Inodes)
    → s.table i ≡ pipe_inode page 2
    → iput i s ≡ returns (set_inode i (pipe_inode page 1) s)
unfolding iput put_pipe
iput-shared i page s e = rw e refl

iput-last :
    (i page : ℕ) (s : Inodes) (memory : Memory)
    → s.table i ≡ pipe_inode page 1
    → free_page page s.memory ≡ ok memory
    → iput i s
      ≡ returns (set_inode i (record no_inode { i_size = page }) (record s { memory = memory }))
unfolding iput put_pipe
iput-last i page s memory e freed =
    rw (e, freed) (ap (λ n. returns (set_inode i (no_pipe n) (record s { memory = memory }))) e)

fill_pipe-fills :
    (i : ℕ) (s : Inodes)
    → (get_free_page s.memory).0 ≢ 0
    → s.table i ≡ record no_inode { i_count = 1 }
    → fill_pipe i s
      ≡ returns (
        some i,
        set_inode i
            (pipe_inode (get_free_page s.memory).0 2)
            (record s { memory = (get_free_page s.memory).1 }),
      )
unfolding fill_pipe
fill_pipe-fills i s page e =
    let there : ((get_free_page s.memory).0 == 0) ≡ false = ground (arith, page) in
    rw (e, there) refl

-- what is left of the pipe: a free inode, the counts of the pages, and the other inodes as before
abbrev pub Released : ℕ → Inodes → Inodes → Type 0
Released i s s' =
    (is_clean (s'.table i) ≡ true)
    × ((j : ℕ) → j ≢ i → s'.table j ≡ s.table j)
    × ((p : ℕ) → s'.memory.mem_map p ≡ s.memory.mem_map p)

module _ (d : ℕ) (s : Inodes) (start : s.last_inode < 32) (below : d < 32)
    (first : IsFirst d s.last_inode s.table) (page_free : (get_free_page s.memory).0 ≢ 0)
    (page_high : (get_free_page s.memory).0 < s.memory.high_memory) where
  abbrev slot : ℕ
  slot = slot_after s.last_inode d

  abbrev page : ℕ
  page = (get_free_page s.memory).0

  abbrev taken : Inodes
  taken = record s {
    table = update s.table slot (record no_inode { i_count = 1 });
    last_inode = slot;
  }

  abbrev pub piped : Inodes
  piped = set_inode slot (pipe_inode page 2) (record taken { memory = (get_free_page s.memory).1 })

  abbrev closed : Inodes
  closed = set_inode slot (pipe_inode page 1) piped

  abbrev ended : Memory → Inodes
  ended memory =
      set_inode slot (record no_inode { i_size = page }) (record closed { memory = memory })

  others : (j : ℕ) → j ≢ slot → closed.table j ≡ s.table j
  others j ne =
      update_ne piped.table slot _ j (λ e. ne (sym e))
      ∙ update_ne taken.table slot _ j (λ e. ne (sym e))
      ∙ update_ne s.table slot _ j (λ e. ne (sym e))

  ended-Released :
      (memory : Memory)
      → ((p : ℕ) → memory.mem_map p ≡ s.memory.mem_map p)
      → Released slot s (ended memory)
  ended-Released memory same = (
    ap is_clean (update_self closed.table slot (record no_inode { i_size = page })),
    λ j ne. update_ne closed.table slot _ j (λ e. ne (sym e)) ∙ others j ne,
    same,
  )

  -- If there is an unused, clean and unlocked inode and a free page below HIGH_MEMORY, get_pipe_inode returns
  -- the inode of a pipe, the first iput leaves it to the other end, and the second gives back its page: then
  -- the inode can be taken again, the counts of the pages are those of before, and so are the other inodes.
  pub get_pipe_inode-Released :
      (s1 s2 s3 : Inodes) × (get_pipe_inode s ≡ returns (some slot, s1))
      × (iput slot s1 ≡ returns s2)
      × (iput slot s2 ≡ returns s3)
      × Released slot s s3
  unfolding get_pipe_inode
  get_pipe_inode-Released =
      let (memory, freed, same) = free_page-get_free_page s.memory page_free page_high in
      (
        piped,
        closed,
        ended memory,
        ap (λ r. go_on r (λ (i, s1). fill_pipe i s1)) (get_empty_inode-first d s start below first)
            ∙ fill_pipe-fills slot taken page_free (update_self s.table slot _),
        iput-shared slot page piped (update_self taken.table slot _),
        iput-last slot page closed memory (update_self piped.table slot _) freed,
        ended-Released memory same,
      )
