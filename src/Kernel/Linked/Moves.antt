-- ===== src/Kernel/Linked/Moves.antt =====
-- The linked lists of phase1/pcb.c implement the queues of the model: a process that moves between two.
use progetto_so.Base.{
  ℕ, ◌≤◌, ◌<◌, ◌≡◌, ◌≢◌, refl, sym, ◌∙◌, subst, fun_ext, false, true, List, [], ◌∷◌, ◌++◌, some,
  ◌==◌, has, length, Apart, erase, update, arith, Bool-cases, inl, inr, ==-false, has-append,
  has-erase_self, erase_not_mem, length-append, length-erase,
}
use progetto_so.Listx.{Mem, null}
use progetto_so.Listx.Chain.{IsList}
use progetto_so.Listx.Frame.{SameOutside, IsList-frame, list_add_tail-same}
use progetto_so.Store.{Store, max_proc}
use progetto_so.Pcb.{insert_proc_q, out_proc_q}
use progetto_so.Pcb.Queue.{out_proc_q-erase, insert_proc_q-append}
use progetto_so.Kernel.State.{Kernel}
use progetto_so.Kernel.Scheduler.{ready_process}
use progetto_so.Kernel.Linked.{
  ready_list, lists, queue_of, AreQueues, IsRepresented, ready_process_linked,
}

-- An entry of a family with one entry written.
update_at : {A : Type 0} (f : ℕ → A) (i : ℕ) (v : A) → update f i v i ≡ v
update_at f i v = ground arith

update_away : {A : Type 0} (f : ℕ → A) (i j : ℕ) (v : A) → j ≢ i → update f i v j ≡ f j
update_away f i j v h = rw (==-false j i h) refl

Apart-sym : (xs ys : List ℕ) → Apart xs ys → Apart ys xs
Apart-sym xs ys d a i = elim (Bool-cases (has a xs)) [
  | inl there ↦ absurd (ground (arith, d a there))
  | inr out ↦ out
]

-- One list changes; the others share no node with what has changed.
module _ (h : ℕ → ℕ) (c : ℕ → List ℕ) (m g : Mem) (i : ℕ) (xs s : List ℕ) where
  AreQueues-update :
      AreQueues h c m
      → SameOutside s m g
      → IsList g (h i) xs
      → has null xs ≡ false
      → length xs ≤ max_proc
      → ((j : ℕ) → j < lists → j ≢ i → Apart (h j ∷ c j) s)
      → ((j : ℕ) → j < lists → j ≢ i → Apart (h j ∷ c j) (h i ∷ xs))
      → AreQueues h (update c i xs) g
  AreQueues-update q same is live short spared apart = record {
    list = λ j b. elim (Bool-cases (j == i)) [
      | inl here ↦ let e : j ≡ i = ground arith in rw (e, update_at c i xs) is
      | inr away ↦
          let ne : j ≢ i = λ e. ground arith in
          rw (update_away c i j xs ne) (IsList-frame s same (spared j b ne) (q.list j b))
    ];
    apart = λ j k b e ne. elim (Bool-cases (j == i)) [
      | inl j_here ↦
          let ej : j ≡ i = ground arith in
          let k_away : k ≢ i = λ f. ne (ej ∙ sym f) in
          rw (ej, update_at c i xs, update_away c i k xs k_away)
            (Apart-sym (h k ∷ c k) (h i ∷ xs) (apart k e k_away))
      | inr j_away ↦
          let ej : j ≢ i = λ f. ground arith in
          elim (Bool-cases (k == i)) [
            | inl k_here ↦
                let ek : k ≡ i = ground arith in
                rw (ek, update_at c i xs, update_away c i j xs ej) (apart j b ej)
            | inr k_away ↦
                let ek : k ≢ i = λ f. ground arith in
                rw (update_away c i j xs ej, update_away c i k xs ek) (q.apart j k b e ne)
          ]
    ];
    head_live = q.head_live;
    live = λ j b. elim (Bool-cases (j == i)) [
      | inl here ↦ rw here live
      | inr away ↦ rw away (q.live j b)
    ];
    short = λ j b. elim (Bool-cases (j == i)) [
      | inl here ↦ rw here short
      | inr away ↦ rw away (q.short j b)
    ];
  }

-- A process that is in a list leaves it: it is then in none.
record IsOut (h : ℕ → ℕ) (c : ℕ → List ℕ) (p : ℕ) : Type 0 where
  none_has : (j : ℕ) → j < lists → has p (h j ∷ c j) ≡ false

Apart-erase : (p x : ℕ) (xs ys : List ℕ) → Apart xs (x ∷ ys) → Apart xs (x ∷ erase p ys)
Apart-erase p x xs ys d a i = ground (arith, d a i, erase_not_mem a p ys)

-- Addresses in a list are not `p` if the list does not have `p`.
not_here : (p a : ℕ) (xs : List ℕ) → has p xs ≡ false → has a xs ≡ true → (a == p) ≡ false
not_here p a xs out i = elim (Bool-cases (a == p)) [
  | inl e ↦
      let same : a ≡ p = ground arith in
      absurd (ground (arith, subst (λ b. has b xs ≡ true) same i))
  | inr e ↦ e
]

Apart-cons : (p : ℕ) (xs ys : List ℕ) → has p xs ≡ false → Apart xs ys → Apart xs (p ∷ ys)
Apart-cons p xs ys out d a i = rw (not_here p a xs out i) (d a i)

Apart-snoc :
    (p x : ℕ) (xs ys : List ℕ)
    → has p xs ≡ false
    → Apart xs (x ∷ ys)
    → Apart xs (x ∷ (ys ++ p ∷ []))
Apart-snoc p x xs ys out d a i =
    ground (arith, not_here p a xs out i, d a i, has-append a ys (p ∷ []))

-- `outProcQ` on a list that has the process.
out_proc_q-AreQueues :
    (h : ℕ → ℕ) (c : ℕ → List ℕ) (s : Store) (i p : ℕ)
    → AreQueues h c s.mem
    → i < lists
    → has p (c i) ≡ true
    → (t : Store) × (out_proc_q (h i) p s ≡ some (p, t))
      × AreQueues h (update c i (erase p (c i))) t.mem
      × IsOut h (update c i (erase p (c i))) p
out_proc_q-AreQueues h c s i p q b there =
    let (t, e, l) =
      out_proc_q-erase (h i) p s (c i) (q.list i b) (q.head_live i b) (q.short i b) (q.live i b) in
    (
      t,
      e ∙ rw there refl,
      AreQueues-update h c s.mem t.mem i (erase p (c i)) (h i ∷ c i) q l.same l.queue
          (erase_not_mem null p (c i) (q.live i b))
          (omega (arith, length-erase p (c i) there, q.short i b)) (λ j bj ne. q.apart j i bj b ne)
          (λ j bj ne. Apart-erase p (h i) (h j ∷ c j) (c i) (q.apart j i bj b ne)),
      record {
        none_has = λ j bj. elim (Bool-cases (j == i)) [
          | inl here ↦
              let same : j ≡ i = ground arith in
              let first : (p == h i) ≡ false =
                not_here (h i) p (c i) (q.list i b).distinct.0 there in
              let gone = has-erase_self p (c i) (q.list i b).distinct.1 in
              rw (same, update_at c i (erase p (c i)), first) gone
          | inr away ↦
              let ne : j ≢ i = λ f. ground arith in
              rw (update_away c i j (erase p (c i)) ne)
                (q.apart i j b bj (λ f. ne (sym f)) p (ground (arith, there)))
        ];
      },
    )

-- `insertProcQ` of a process that is in no list.
insert_proc_q-AreQueues :
    (h : ℕ → ℕ) (c : ℕ → List ℕ) (s : Store) (i p : ℕ)
    → AreQueues h c s.mem
    → i < lists
    → p ≢ null
    → IsOut h c p
    → length (c i) < max_proc
    → AreQueues h (update c i (c i ++ p ∷ [])) (insert_proc_q (h i) p s).mem
unfolding insert_proc_q
insert_proc_q-AreQueues h c s i p q b live out room =
    AreQueues-update h c s.mem (insert_proc_q (h i) p s).mem i (c i ++ p ∷ []) (p ∷ h i ∷ c i) q
      (rw (==-false p null live) (list_add_tail-same (q.list i b) p))
      (insert_proc_q-append (h i) s (c i) (q.list i b) p live (out.none_has i b))
      (ground (arith, live, has-append null (c i) (p ∷ []), q.live i b))
      (omega (arith, length-append (c i) (p ∷ []), room))
      (λ j bj ne. Apart-cons p (h j ∷ c j) (h i ∷ c i) (out.none_has j bj) (q.apart j i bj b ne))
      (λ j bj ne. Apart-snoc p (h i) (h j ∷ c j) (c i) (out.none_has j bj) (q.apart j i bj b ne))

moved :
    (k : Kernel) (i p j : ℕ)
    → i < ready_list
    → p ≢ null
    → update
        (update (queue_of k) i (erase p (queue_of k i)))
        ready_list
        (update (queue_of k) i (erase p (queue_of k i)) ready_list ++ p ∷ [])
        j
      ≡ queue_of (ready_process p i k) j
unfolding ready_process
moved k i p j b live =
    let before = ==-false i ready_list (λ e. omega (arith, e, b)) in
    let after = ==-false ready_list i (λ e. omega (arith, e, b)) in
    elim (Bool-cases (j == ready_list)) [
      | inl here ↦ rw (here, after, ==-false p null live) refl
      | inr away ↦ rw (away, before) refl
    ]

-- `readyProcess` on the linked lists implements the one on queues: if the memory holds the queues of the model and the
-- process is in the list of blocked processes with this index, then the search ends, and the memory holds the
-- queues that the model's function leaves, all other lists included.
pub ready_process_linked-IsRepresented :
    (h : ℕ → ℕ) (s : Store) (k : Kernel) (i p : ℕ)
    → IsRepresented h s k
    → i < ready_list
    → p ≢ null
    → has p (k.blocked_proc i) ≡ true
    → length k.ready_queue < max_proc
    → (t : Store) × (ready_process_linked (h ready_list) (h i) p s ≡ some t)
      × IsRepresented h t (ready_process p i k)
unfolding ready_process_linked
ready_process_linked-IsRepresented h s k i p q b live there room =
    let ne : ready_list ≢ i = λ e. omega (arith, e, b) in
    let c = queue_of k in
    let at : c i ≡ k.blocked_proc i = rw (==-false i ready_list (λ e. ne (sym e))) refl in
    let (t, e, r, out) = out_proc_q-AreQueues h c s i p q (omega (arith, b)) (rw at there) in
    let d = update c i (erase p (c i)) in
    let same : d ready_list ≡ k.ready_queue = update_away c i ready_list (erase p (c i)) ne in
    let done = insert_proc_q-AreQueues h d t ready_list p r (omega arith) live out (rw same room) in
    (
      insert_proc_q (h ready_list) p t,
      rw e refl,
      subst (λ f. AreQueues h f (insert_proc_q (h ready_list) p t).mem)
          (fun_ext (λ j. moved k i p j b live)) done,
    )
