-- ===== src/BlockQueue/Tests.antt =====
-- Three requests of kernel/blk_drv/ll_rw_blk.c, and the theorem at them.
use os_lab2_gui.Prelude.{
  ℕ, ◌+◌, ◌≤◌, ◌≡◌, ◌≢◌, refl, inl, inr, Bool, true, false, List, [], ◌∷◌, arith, ◌==◌,
  if◌then◌else◌,
}
use os_lab2_gui.Prelude.Int.{pos, negsuc}
use os_lab2_gui.Prelude.Chain.{null}
use os_lab2_gui.BlockQueue.{
  Device, Made, returned, in_order, add_request, find_place, link_behind, free_request,
  queue_request, make_request, ll_rw_block,
}
use os_lab2_gui.BlockQueue.Sweep.{Differs}
use os_lab2_gui.BlockQueue.Elevator.{bare, list_of, Holds, Queued, add_request-Queued}

-- requests 1 and 2 read the blocks 10 and 30 of the hard disk, request 3 is for block 20
abbrev device : Device
device = record {
  request = λ a. record {
    dev =
        if a == 1
        then pos 769
        else if a == 2
        then pos 769
        else if a == 3
        then pos 769
        else negsuc 0;
    cmd = 0;
    errors = 0;
    sector = if a == 1 then 20 else if a == 2 then 60 else 40;
    nr_sectors = 2;
    bh = null;
    next = if a == 1 then 2 else null;
  };
  current_request = λ major. if major == 3 then 1 else null;
  cache = record {
    head = λ a. record {
      b_blocknr = 20;
      b_dev = 769;
      b_uptodate = false;
      b_dirt = false;
      b_count = 1;
      b_lock = false;
      b_prev = null;
      b_next = null;
      b_prev_free = 1;
      b_next_free = 1;
    };
    hash_table = λ h. null;
    free_list = 1;
  };
}

nonnull : {n : ℕ} → 1 ≤ n → n ≢ null
nonnull h e = omega (arith, e)

two_ne_one : ◌≢◌ {A = ℕ} 1 2
two_ne_one e = omega (arith, e)

apart : {m n : ℕ} → n + 1 ≤ m → m ≢ n
apart h e = omega (arith, e)

holds : Holds device 3 (1 ∷ 2 ∷ [])
unfolding in_order
holds = (
  (refl, nonnull (omega arith), (refl, nonnull (omega arith), refl)),
  ((two_ne_one, tt), (tt, tt)),
  inl (refl, tt),
)

-- the new request goes between the two
links_of : Bool × Device → List ℕ
links_of (starts, d) = (d.request 1).next ∷ (d.request 3).next ∷ []

goes_between : links_of (add_request 3 3 3 device) ≡ 3 ∷ 2 ∷ []
unfolding links_of add_request find_place link_behind in_order
goes_between = refl

started : Made → Bool
started (returned starts d) = starts
started _ = false

-- a read of a buffer takes the highest free request; the queue of the device had requests
reads : started (ll_rw_block (λ major. true) 3 0 5 device) ≡ false
unfolding started ll_rw_block make_request queue_request free_request add_request find_place
    link_behind in_order
reads = refl

keys : Differs (bare device.request 3) (list_of device.request (1 ∷ 2 ∷ []))
unfolding in_order
keys = (inr refl, (inl refl, tt))

add_request-Queued_example :
    Queued device 3 3 (1 ∷ 2 ∷ []) (add_request 3 3 3 device).0 (add_request 3 3 3 device).1
add_request-Queued_example =
    add_request-Queued 3 3 3 device (nonnull {n = 3} (omega arith)) (1 ∷ 2 ∷ []) (omega arith)
      (apart (omega arith), (apart (omega arith), tt)) keys holds
