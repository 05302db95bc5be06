-- ===== src/Pipe.antt =====
-- fs/pipe.c: a pipe is a page used as a ring. A call reads or writes what it can at once; then it returns,
-- or it sleeps until the other side has worked, and goes on with what is left.
pub mod Ring
pub mod Read
pub mod Write
mod Tests
use os_lab2_gui.Prelude.{
  ℕ, zero, suc, ◌+◌, ◌-◌, ◌*◌, ◌%◌, min, Bool, true, false, not, List, [], ◌∷◌, ◌++◌, length, take,
  drop, ◌==◌, if◌then◌else◌,
}
use os_lab2_gui.Prelude.Int.{ℤ, pos, negsuc}
use os_lab2_gui.Prelude.Table.{update}

-- PAGE_SIZE
abbrev pub page_size : ℕ
page_size = 4096

-- the inode of a pipe: PIPE_HEAD, PIPE_TAIL and the page at `i_size`
pub record Pipe : Type 0 where
  pub head : ℕ
  pub tail : ℕ
  pub page : ℕ → ℕ

-- PIPE_SIZE
abbrev pub pipe_size : Pipe → ℕ
pipe_size p = (p.head + page_size - p.tail) % page_size

-- `chars` bytes from `size` on, without wrap
abbrev pub slice : (ℕ → ℕ) → ℕ → ℕ → List ℕ
slice page size zero = []
slice page size (suc chars) = page size ∷ slice page (size + 1) chars

-- the bytes of the user's buffer, stored from `size` on
abbrev pub fill : (ℕ → ℕ) → ℕ → List ℕ → ℕ → ℕ
fill page size [] = page
fill page size (b ∷ bs) = fill (update page size b) (size + 1) bs

-- how many bytes a turn of the loop of read_pipe moves
abbrev pub read_chars : ℕ → Pipe → ℕ
read_chars count p = min (min (page_size - p.tail) count) (pipe_size p)

-- one turn: the bytes read, and the pipe
unfoldable pub read_chunk : ℕ → Pipe → List ℕ × Pipe
read_chunk count p = (
  slice p.page p.tail (read_chars count p),
  record p { tail = (p.tail + read_chars count p) % page_size },
)

-- the turns until the count is reached or the pipe is empty: the bytes, the count left, the pipe
unfoldable pub read_loop : ℕ → ℕ → Pipe → List ℕ × ℕ × Pipe
read_loop zero count p = ([], count, p)
read_loop (suc fuel) count p =
    let (bytes, p1) = read_chunk count p in
    let (more, left, p2) = read_loop fuel (count - read_chars count p) p1 in
    if count == 0
    then ([], 0, p)
    else if pipe_size p == 0
    then ([], count, p)
    else (bytes ++ more, left, p2)

-- How a call ends: it returns a value (with SIGPIPE to the caller, or not), or it sleeps.
pub data PipeEnd : Type 0 where
  returned : ℤ → Bool → PipeEnd
  asleep : PipeEnd

-- `read_pipe(inode, buf, count)` after `read` bytes, up to its end or its sleep; `peers` is `i_count == 2`
unfoldable pub read_pipe : Bool → ℕ → ℕ → Pipe → PipeEnd × List ℕ × ℕ × Pipe
read_pipe peers read count p =
    let (bytes, left, p') = read_loop (count + 1) count p in
    (
      (if left == 0
          then returned (pos (read + length bytes)) false
          else if peers
          then asleep
          else returned (pos (read + length bytes)) false),
      bytes,
      left,
      p',
    )

abbrev pub write_chars : ℕ → Pipe → ℕ
write_chars count p = min (min (page_size - p.head) count) (page_size - 1 - pipe_size p)

-- one turn of the loop of write_pipe, with `buf` still to write
unfoldable pub write_chunk : List ℕ → Pipe → Pipe
write_chunk buf p = record p {
  head = (p.head + write_chars (length buf) p) % page_size;
  page = fill p.page p.head (take (write_chars (length buf) p) buf);
}

-- the turns until everything is written or the pipe is full: what was written, what is left, the pipe
unfoldable pub write_loop : ℕ → List ℕ → Pipe → List ℕ × List ℕ × Pipe
write_loop zero buf p = ([], buf, p)
write_loop (suc fuel) buf p =
    let chars : ℕ = write_chars (length buf) p in
    let (more, left, p2) = write_loop fuel (drop chars buf) (write_chunk buf p) in
    if length buf == 0
    then ([], [], p)
    else if page_size - 1 - pipe_size p == 0
    then ([], buf, p)
    else (take chars buf ++ more, left, p2)

-- `write_pipe(inode, buf, count)` after `written` bytes, up to its end or its sleep
unfoldable pub write_pipe : Bool → ℕ → List ℕ → Pipe → PipeEnd × List ℕ × List ℕ × Pipe
write_pipe peers written buf p =
    let (bytes, left, p') = write_loop (length buf + 1) buf p in
    let total : ℕ = written + length bytes in
    (
      (if length left == 0
          then returned (pos total) false
          else if peers
          then asleep
          else returned (if total == 0 then negsuc 0 else pos total) true),
      bytes,
      left,
      p',
    )
