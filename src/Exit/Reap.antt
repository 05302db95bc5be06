-- ===== src/Exit/Reap.antt =====
-- kernel/exit.c: what becomes of the children of a task that ends, and whom tell_father tells.
use os_lab2_gui.Prelude.{
  ℕ, zero, suc, ◌+◌, ◌<◌, ◌≡◌, refl, sym, ap, ◌∙◌, inl, inr, Bool, true, false, ◌&&◌, Bool-cases,
  Option-cases, ==_iff, Option, none, some, arith, ltb, leb, ◌==◌, if◌then◌else◌,
}
use os_lab2_gui.Prelude.Int.{ℤ, pos, eqb_ℤ}
use os_lab2_gui.Prelude.Table.{update}
use os_lab2_gui.Task.{Task, Tasks, First, on_task, find_task, find_task-First}
use os_lab2_gui.Exit.{is_zombie, send_sig, adopt_slot, adopt_loop, tell_father, has_pid, add_signal}

abbrev pub father_of : Option Task → Option ℤ
father_of none = none
father_of (some t) = some t.father

-- what the loop does to the father in a slot
abbrev pub adopted : Bool → ℤ → Option ℤ → Option ℤ
adopted hit pid none = none
adopted hit pid (some father) = some (if hit && eqb_ℤ father pid then pos 1 else father)

adopted-keeps : (pid : ℤ) (o : Option ℤ) → o ≡ adopted false pid o
adopted-keeps pid none = refl
adopted-keeps pid (some f) = refl

adopted-outside : (pid : ℤ) (hit : Bool) (o : Option ℤ) → hit ≡ false → o ≡ adopted hit pid o
adopted-outside pid hit o e = rw e (adopted-keeps pid o)

adopted-both :
    (pid : ℤ) (i j n : ℕ) (o : Option ℤ)
    → adopted (leb (i + 1) j && ltb j (i + 1 + n)) pid (adopted (i == j) pid o)
      ≡ adopted (leb i j && ltb j (i + suc n)) pid o
adopted-both pid i j n none = refl
adopted-both pid i j n (some f) = ground arith

send_sig-father : (sig : ℤ) (p : Option Task) → father_of (send_sig 0 sig p true).1 ≡ father_of p
unfolding send_sig
send_sig-father sig none = refl
send_sig-father sig (some t) = ground arith

update-father :
    (task : Tasks) (i j : ℕ) (p : Option Task)
    → father_of p ≡ father_of (task i)
    → father_of (update task i p j) ≡ father_of (task j)
update-father task i j p e = elim (Bool-cases (i == j)) [
  | inl h ↦ rw h (e ∙ ap (λ m. father_of (task m)) ((==_iff i j).0 h))
  | inr h ↦ rw h refl
]

update-adopts :
    (pid : ℤ) (i j : ℕ) (task : Tasks) (t : Task) (f : ℤ)
    → task i ≡ some t
    → f ≡ (if eqb_ℤ t.father pid then pos 1 else t.father)
    → father_of (update task i (some (record t { father = f })) j)
      ≡ adopted (i == j) pid (father_of (task j))
update-adopts pid i j task t f at e = elim (Bool-cases (i == j)) [
  | inl h ↦
      let here : task j ≡ some t = ap task (sym ((==_iff i j).0 h)) ∙ at in rw (h, here) (ap some e)
  | inr h ↦ rw h (adopted-keeps pid (father_of (task j)))
]

adopt_slot-father :
    (pid : ℤ) (i : ℕ) (task : Tasks) (j : ℕ)
    → father_of (adopt_slot pid i task j) ≡ adopted (i == j) pid (father_of (task j))
unfolding adopt_slot
adopt_slot-father pid i task j = elim (Option-cases (task i)) [
  | inl e ↦
      rw (e, adopt_slot)
        (elim (Bool-cases (i == j)) [
          | inl h ↦
              let here : task j ≡ none = ap task (sym ((==_iff i j).0 h)) ∙ e in rw (h, here) refl
          | inr h ↦ rw h (adopted-keeps pid (father_of (task j)))
        ])
  | inr (t, e) ↦
      rw (e, adopt_slot)
        (elim (Bool-cases (eqb_ℤ t.father pid)) [
          | inl h ↦ rw h (elim (Bool-cases (is_zombie t.state)) [
            | inl z ↦ rw z (
                update-father (update task i (some (record t { father = pos 1 }))) 1 j
                  (send_sig 0 (pos 17) (update task i (some (record t { father = pos 1 })) 1)
                    true).1
                  (send_sig-father (pos 17) (update task i (some (record t { father = pos 1 })) 1))
                ∙ update-adopts pid i j task t (pos 1) e (rw h refl))
            | inr z ↦ rw z (update-adopts pid i j task t (pos 1) e (rw h refl))
          ])
          | inr h ↦ rw h (elim (Bool-cases (i == j)) [
            | inl k ↦
                let here : task j ≡ some t = ap task (sym ((==_iff i j).0 k)) ∙ e in
                rw (k, here, h) refl
            | inr k ↦ rw k (adopted-keeps pid (father_of (task j)))
          ])
        ])
]

-- After the loop of do_exit a task in the slots from `i` on that had the ending task as its father has
-- task 1 as its father, and all others keep theirs.
pub adopt_loop-father :
    (pid : ℤ) (i n : ℕ) (task : Tasks) (j : ℕ)
    → father_of (adopt_loop pid i n task j)
      ≡ adopted (leb i j && ltb j (i + n)) pid (father_of (task j))
unfolding adopt_loop
adopt_loop-father pid i zero task j =
    adopted-outside pid (leb i j && ltb j (i + 0)) (father_of (task j)) outside
  where
    outside : (leb i j && ltb j (i + 0)) ≡ false
    outside = ground arith
adopt_loop-father pid i (suc n) task j =
    adopt_loop-father pid (i + 1) n (adopt_slot pid i task) j
    ∙ ap (adopted (leb (i + 1) j && ltb j (i + 1 + n)) pid) (adopt_slot-father pid i task j)
    ∙ adopted-both pid i j n (father_of (task j))

-- what `tell_father` says: no task has the pid, or the one in the lowest slot gets SIGCHLD
abbrev pub Told : ℤ → Tasks → Option Tasks → Type 0
Told pid task none = (j : ℕ) (t : Task) → j < 64 → task j ≡ some t → eqb_ℤ t.pid pid ≡ false
Told pid task (some task') =
    (i : ℕ) × (t : Task) × (task i ≡ some t)
    × (eqb_ℤ t.pid pid ≡ true)
    × (task' ≡ update task i (some (add_signal (pos 17) t)))
    × ((j : ℕ) (u : Task) → j < i → task j ≡ some u → eqb_ℤ u.pid pid ≡ false)

has_pid-some :
    (pid : ℤ) (o : Option Task)
    → has_pid pid o ≡ true
    → (t : Task) × (o ≡ some t) × (eqb_ℤ t.pid pid ≡ true)
has_pid-some pid none e = absurd (cc)
has_pid-some pid (some t) e = (t, refl, e)

-- For a pid that is not 0 tell_father signals SIGCHLD to the task with that pid in the lowest slot; it goes
-- on to release the caller exactly if no slot has the pid.
pub tell_father-Told :
    (pid : ℤ) (task : Tasks) → eqb_ℤ pid (pos 0) ≡ false → Told pid task (tell_father pid task)
unfolding tell_father
tell_father-Told pid task ne =
    rw ne (told (find_task (has_pid pid) 0 64 task) (find_task-First (has_pid pid) 0 64 task))
  where
    told :
        (o : Option ℕ)
        → First (has_pid pid) 0 64 task o
        → Told pid task (elim o [
          | none ↦ none
          | some i ↦ some (update task i (on_task (add_signal (pos 17)) (task i)))
        ])
    told none first = λ j t lt at. ap (has_pid pid) (sym at) ∙ first j (omega arith) (omega arith)
    told (some i) (ge, lt, found, before) =
        let (t, at, same) = has_pid-some pid (task i) found in
        (
          i,
          t,
          at,
          same,
          ap (λ p. update task i (on_task (add_signal (pos 17)) p)) at,
          λ j u below at_j. ap (has_pid pid) (sym at_j) ∙ before j (omega arith) below,
        )
