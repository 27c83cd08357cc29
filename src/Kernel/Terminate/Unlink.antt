-- ===== src/Kernel/Terminate/Unlink.antt =====
-- The first part of `TerminateProcess` of phase2/ssi.c: the process leaves its parent and every queue, and
-- the two counters follow.
use progetto_so.Base.{
  ℕ, zero, suc, ◌+◌, ◌%◌, ◌≤◌, ◌<◌, ◌≡◌, ◌≢◌, refl, sym, ap, ◌∙◌, true, false, List, [], ◌∷◌, ◌++◌,
  ◌==◌, has, erase, update, length, arith, Bool-cases, if◌then◌else◌, ==-refl, inl, inr,
  erase_absent, length-erase, length-append,
}
use progetto_so.Listx.{null}
use progetto_so.Kernel.State.{Kernel, sem_dev_len, word_mod}
use progetto_so.Kernel.Run.{sub_word}
use progetto_so.Kernel.Queues.{out_ready, out_blocked}
use progetto_so.Kernel.Terminate.{out_devices_from, unlink_process}

-- The number of processes in the first `n` lists.
unfoldable pub total : ℕ → (ℕ → List ℕ) → ℕ
total zero lists = 0
total (suc n) lists = length (lists n) + total n lists

-- `softBlock_count` is the number of processes in the device lists and the pseudo-clock's list.
abbrev pub IsCounted : Kernel → Type 0
IsCounted k = k.soft_block_count ≡ total sem_dev_len k.blocked_proc % word_mod

-- No process waits for two devices.
abbrev pub IsExclusive : Kernel → Type 0
IsExclusive k =
    (p i j : ℕ)
    → i < sem_dev_len
    → j < sem_dev_len
    → has p (k.blocked_proc i) ≡ true
    → has p (k.blocked_proc j) ≡ true
    → i ≡ j

total-update_above :
    (n i : ℕ) (lists : ℕ → List ℕ) (xs : List ℕ)
    → n ≤ i
    → total n (update lists i xs) ≡ total n lists
unfolding total
total-update_above zero i lists xs h = refl
total-update_above (suc n) i lists xs h = ground (arith, total-update_above n i lists xs)

total-update-erase :
    (n i p : ℕ) (lists : ℕ → List ℕ)
    → i < n
    → has p (lists i) ≡ true
    → total n lists ≡ total n (update lists i (erase p (lists i))) + 1
unfolding total
total-update-erase zero i p lists h m = absurd (omega arith)
total-update-erase (suc n) i p lists h m = elim (Bool-cases (n == i)) [
  | inl e ↦
      let same : n ≡ i = ground arith in
      rw (same, ==-refl i)
        (omega (
          arith,
          length-erase p (lists i) m,
          total-update_above i i lists (erase p (lists i)) (omega arith),
        ))
  | inr e ↦ rw e (omega (arith, total-update-erase n i p lists (ground arith) m))
]

-- A process that leaves a list leaves no list worse.
pub has-erase_of : (q p : ℕ) (xs : List ℕ) → has q (erase p xs) ≡ true → has q xs ≡ true
has-erase_of q p [] h = h
has-erase_of q p (x ∷ xs) h = ground (arith, has-erase_of q p xs)

IsExclusive-absent :
    (k : Kernel) (p i j : ℕ)
    → IsExclusive k
    → i < sem_dev_len
    → j < sem_dev_len
    → i ≢ j
    → has p (k.blocked_proc i) ≡ true
    → has p (k.blocked_proc j) ≡ false
IsExclusive-absent k p i j ex hi hj ne m = elim (Bool-cases (has p (k.blocked_proc j))) [
  | inl n ↦ absurd (ne (ex p i j hi hj m n))
  | inr n ↦ n
]

-- The device lists that are still to be looked at are rid of the process.
record Searched (rounds i p : ℕ) (k t : Kernel) : Type 0 where
  inside : (j : ℕ) → i ≤ j → j < rounds + i → t.blocked_proc j ≡ erase p (k.blocked_proc j)
  outside : (j : ℕ) → rounds + i ≤ j → t.blocked_proc j ≡ k.blocked_proc j
  below : (j : ℕ) → j < i → t.blocked_proc j ≡ k.blocked_proc j
  counted : IsCounted k → IsCounted t
  only : t ≡ record k { blocked_proc = t.blocked_proc; soft_block_count = t.soft_block_count }

out_devices_from-Searched :
    (rounds i p : ℕ) (k : Kernel)
    → rounds + i ≤ sem_dev_len
    → IsExclusive k
    → Searched rounds i p k (out_devices_from rounds i p k)
unfolding out_devices_from
out_devices_from-Searched zero i p k h ex = record {
  inside = λ j a b. absurd (omega arith);
  outside = λ j a. refl;
  below = λ j a. refl;
  counted = λ c. c;
  only = refl;
}
out_devices_from-Searched (suc rounds) i p k h ex =
    let rest = out_devices_from-Searched rounds (i + 1) p k (omega arith) ex in
    elim (Bool-cases (has p (k.blocked_proc i))) [
      | inl here ↦ rw here (record {
        inside = λ j a b. ground (
          arith,
          IsExclusive-absent k p i j ex (omega arith) (omega arith),
          erase_absent p (k.blocked_proc j),
        );
        outside = λ j a. ground arith;
        below = λ j a. ground arith;
        counted = λ c.
            omega (arith, total-update-erase sem_dev_len i p k.blocked_proc (omega arith) here);
        only = refl;
      })
      | inr gone ↦ rw gone (record {
        inside =
            λ j a b. ground (arith, rest.below j, rest.inside j, erase_absent p (k.blocked_proc j));
        outside = λ j a. rest.outside j (omega arith);
        below = λ j a. rest.below j (omega arith);
        counted = rest.counted;
        only = rest.only;
      })
    ]

-- A list less all these processes.
abbrev pub without : List ℕ → List ℕ → List ℕ
without [] xs = xs
without (m ∷ ms) xs = without ms (erase m xs)

pub without-append : (ms ns xs : List ℕ) → without (ms ++ ns) xs ≡ without ns (without ms xs)
without-append [] ns xs = refl
without-append (m ∷ ms) ns xs = without-append ms ns (erase m xs)

-- The processes `ms` have left the queues, and the two counters say so; messages stay where they are.
pub record Removed (ms : List ℕ) (k t : Kernel) : Type 0 where
  pub ready : t.ready_queue ≡ without ms k.ready_queue
  pub blocked : (j : ℕ) → j ≤ sem_dev_len → t.blocked_proc j ≡ without ms (k.blocked_proc j)
  pub count : (t.process_count + length ms) % word_mod ≡ k.process_count % word_mod
  pub soft : IsCounted k → IsCounted t
  pub exclusive : IsExclusive t
  pub ssi : t.ssi_pcb ≡ k.ssi_pcb
  pub current : t.current_process ≡ k.current_process
  pub inbox : t.msg_inbox ≡ k.msg_inbox

pub Removed-append :
    (ms ns : List ℕ) {k t u : Kernel} → Removed ms k t → Removed ns t u → Removed (ms ++ ns) k u
Removed-append ms ns {k} {t} {u} a b = record {
  ready = b.ready ∙ ap (without ns) a.ready ∙ sym (without-append ms ns k.ready_queue);
  blocked = λ j h.
      b.blocked j h
      ∙ ap (without ns) (a.blocked j h)
      ∙ sym (without-append ms ns (k.blocked_proc j));
  count = omega (arith, a.count, b.count, length-append ms ns);
  soft = λ c. b.soft (a.soft c);
  exclusive = b.exclusive;
  ssi = b.ssi ∙ a.ssi;
  current = b.current ∙ a.current;
  inbox = b.inbox ∙ a.inbox;
}

-- A process that left the list of its parent.
pub record Detached (p : ℕ) (k t : Kernel) : Type 0 where
  pub children :
      (x : ℕ)
      → x ≢ null
      → t.p_child x ≡ (if x == k.p_parent p then erase p (k.p_child x) else k.p_child x)
  pub free : t.pcb_free ≡ k.pcb_free

IsExclusive-of_blocked :
    (p : ℕ) (k t : Kernel)
    → ((j : ℕ) → j ≤ sem_dev_len → t.blocked_proc j ≡ erase p (k.blocked_proc j))
    → IsExclusive k
    → IsExclusive t
IsExclusive-of_blocked p k t same ex q i j hi hj a b =
    let old = λ (n : ℕ) (h : n < sem_dev_len) (m : has q (t.blocked_proc n) ≡ true).
      has-erase_of q p (k.blocked_proc n) (rw (same n (omega arith)) at m) in
    ex q i j hi hj (old i hi a) (old j hj b)

-- The state before the loop over the device lists.
abbrev queues_left : (p : ℕ) → (ℕ → List ℕ) → (ℕ → ℕ) → Kernel → Kernel
queues_left p children parents k = out_blocked sem_dev_len p (
    out_ready p (record k {
      p_child = children;
      p_parent = parents;
      process_count = sub_word k.process_count 1;
    }))

queues_left-IsExclusive :
    (p : ℕ) (children : ℕ → List ℕ) (parents : ℕ → ℕ) (k : Kernel)
    → IsExclusive k
    → IsExclusive (queues_left p children parents k)
queues_left-IsExclusive p children parents k ex =
    IsExclusive-of_blocked' λ j h. let e : (j == sem_dev_len) ≡ false = ground arith in rw e
  where
    IsExclusive-of_blocked' :
        ((j : ℕ)
          → j < sem_dev_len
          → (queues_left p children parents k).blocked_proc j ≡ k.blocked_proc j)
        → IsExclusive (queues_left p children parents k)
    IsExclusive-of_blocked' same q i j hi hj a b =
        ex q i j hi hj (rw (same i hi) at a) (rw (same j hj) at b)

devices_left :
    (p : ℕ) (children : ℕ → List ℕ) (parents : ℕ → ℕ) (k : Kernel)
    → IsExclusive k
    → let t = out_devices_from sem_dev_len 0 p (queues_left p children parents k) in
      Removed (p ∷ []) k t × (t.p_child ≡ children) × (t.pcb_free ≡ k.pcb_free)
devices_left p children parents k ex =
    let m = queues_left p children parents k in
    let ex' = queues_left-IsExclusive p children parents k ex in
    let r = out_devices_from-Searched sem_dev_len 0 p m (omega arith) ex' in
    let blocked = λ (j : ℕ) (h : j ≤ sem_dev_len). left j h r in
    (
      record {
        ready = ap (λ (x : Kernel). x.ready_queue) r.only;
        blocked = blocked;
        count = omega (arith, ap (λ (x : Kernel). x.process_count) r.only);
        soft = λ c. r.counted (
            c
            ∙ ap (λ n. n % word_mod)
                (sym (total-update_above sem_dev_len sem_dev_len k.blocked_proc _ (omega arith))));
        exclusive = IsExclusive-of_blocked p k (out_devices_from sem_dev_len 0 p m) blocked ex;
        ssi = ap (λ (x : Kernel). x.ssi_pcb) r.only;
        current = ap (λ (x : Kernel). x.current_process) r.only;
        inbox = ap (λ (x : Kernel). x.msg_inbox) r.only;
      },
      ap (λ (x : Kernel). x.p_child) r.only,
      ap (λ (x : Kernel). x.pcb_free) r.only,
    )
  where
    left :
        (j : ℕ)
        → j ≤ sem_dev_len
        → Searched sem_dev_len 0 p
            (queues_left p children parents k)
            (out_devices_from sem_dev_len 0 p (queues_left p children parents k))
        → (out_devices_from sem_dev_len 0 p (queues_left p children parents k)).blocked_proc j
          ≡ erase p (k.blocked_proc j)
    left j h r = elim (Bool-cases (j == sem_dev_len)) [
      | inl e ↦ r.outside j (ground arith) ∙ ground arith
      | inr e ↦ r.inside j (omega arith) (ground arith) ∙ rw e
    ]

list_of_root :
    (lists : ℕ → List ℕ) (q p x : ℕ)
    → (q == null) ≡ true
    → x ≢ null
    → lists x ≡ (if x == q then erase p (lists x) else lists x)
list_of_root lists q p x e h = ground arith

list_of_child :
    (lists : ℕ → List ℕ) (q p x : ℕ)
    → update lists q (erase p (lists q)) x ≡ (if x == q then erase p (lists x) else lists x)
list_of_child lists q p x = ground arith

-- The process leaves its parent, the ready queue and the lists of blocked processes.
pub unlink_process-Removed :
    (p : ℕ) (k : Kernel)
    → IsExclusive k
    → Removed (p ∷ []) k (unlink_process p k) × Detached p k (unlink_process p k)
unfolding unlink_process
unlink_process-Removed p k ex = elim (Bool-cases (k.p_parent p == null)) [
  | inl root ↦
      let (r, c, f) = devices_left p k.p_child k.p_parent k ex in
      rw root (
        r,
        record {
          children = λ x h. ap (λ g. g x) c ∙ list_of_root k.p_child (k.p_parent p) p x root h;
          free = f;
        },
      )
  | inr child ↦
      let (r, c, f) =
        devices_left p (update k.p_child (k.p_parent p) (erase p (k.p_child (k.p_parent p))))
          (update k.p_parent p null) k ex in
      rw child (
        r,
        record {
          children = λ x h. ap (λ g. g x) c ∙ list_of_child k.p_child (k.p_parent p) p x;
          free = f;
        },
      )
]
