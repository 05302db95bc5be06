-- ===== src/Pipe/Tests.antt =====
-- A pipe of fs/pipe.c with its marks near the end of the page, and the theorems at it.
use os_lab2_gui.Prelude.{◌+◌, ◌-◌, ◌≡◌, ◌≢◌, refl, true, false, [], ◌∷◌, ◌++◌, length, arith}
use os_lab2_gui.Prelude.Int.{pos}
use os_lab2_gui.Pipe.{
  Pipe, page_size, pipe_size, read_chunk, read_loop, read_pipe, write_chunk, write_loop, write_pipe,
  returned, asleep,
}
use os_lab2_gui.Pipe.Ring.{contents, InPage}
use os_lab2_gui.Pipe.Read.{read_loop-contents}
use os_lab2_gui.Pipe.Write.{write_loop-contents}

abbrev pipe : Pipe
pipe = record { head = 4095; tail = 4094; page = λ a. a }

-- the bytes go around the end
written : contents (write_pipe true 0 (1 ∷ 2 ∷ 3 ∷ []) pipe).3 ≡ 4094 ∷ 1 ∷ 2 ∷ 3 ∷ []
unfolding write_pipe write_loop write_chunk
written = refl

-- two bytes more than there are: a reader sleeps while there are writers, and returns without
waits :
    ((read_pipe true 0 3 pipe).0 ≡ asleep) × ((read_pipe false 0 3 pipe).0 ≡ returned (pos 1) false)
unfolding read_pipe read_loop read_chunk
waits = (refl, refl)

read_loop-contents_example :
    let (bytes, left, p') = read_loop 4 3 pipe in
    (contents pipe ≡ bytes ++ contents p')
    × (length bytes + left ≡ 3)
    × (left ≢ 0 → contents p' ≡ [])
    × InPage p'
read_loop-contents_example = read_loop-contents 4 3 pipe (omega arith) (omega arith)

write_loop-contents_example :
    let (bytes, left, p') = write_loop 4 (1 ∷ 2 ∷ 3 ∷ []) pipe in
    (contents p' ≡ contents pipe ++ bytes)
    × (bytes ++ left ≡ 1 ∷ 2 ∷ 3 ∷ [])
    × (length left ≢ 0 → pipe_size p' ≡ page_size - 1)
    × InPage p'
write_loop-contents_example =
    write_loop-contents 4 (1 ∷ 2 ∷ 3 ∷ []) pipe (omega arith) (omega arith)
