-- ===== src/Msg/Queue.antt =====
-- The message queues of phase1/msg.c: `emptyMessageQ`, `insertMessage`, `pushMessage`, `popMessage` and
-- `headMessage` on a well-formed queue.
use progetto_so.Base.{
  ℕ, ◌≤◌, ◌≡◌, ◌≢◌, refl, sym, subst, true, false, Option, some, List, [], ◌∷◌, ◌++◌, ◌==◌,
  if◌then◌else◌, has, erase, length, arith, Bool-cases, erase_absent, ==-false, inl, inr,
}
use progetto_so.Listx.{null, found, absent, list_search, list_del}
use progetto_so.Listx.Chain.{IsList}
use progetto_so.Listx.Insert.{list_add-IsList, list_add_tail-IsList}
use progetto_so.Listx.Delete.{list_del-IsList}
use progetto_so.Listx.Scan.{first_match, list_search-first_match, is_nil, list_empty-is_nil}
use progetto_so.Store.{Store, max_messages}
use progetto_so.Pcb.{on_mem}
use progetto_so.Pcb.Queue.{head_or_null}
use progetto_so.Msg.{
  search_fuel, insert_message, push_message, pop_found, pop_message, head_message, empty_message_q,
}

-- The first message of the queue that this process sent, `NULL` if there is none.
abbrev pub first_from : (ℕ → ℕ) → ℕ → List ℕ → ℕ
first_from sender p [] = null
first_from sender p (m ∷ ms) = if sender m == p then m else first_from sender p ms

-- What `popMessage` is asked for: the first message of all at `NULL`, else the first one of a sender.
abbrev pub wanted : (ℕ → ℕ) → ℕ → List ℕ → ℕ
wanted sender p ms = if p == null then head_or_null ms else first_from sender p ms

first_match-first_from :
    (sender : ℕ → ℕ) (p : ℕ) (ms : List ℕ)
    → has null ms ≡ false
    → first_match (λ iter. sender iter == p) ms
      ≡ (let m = first_from sender p ms in if m == null then absent else found m)
unfolding first_match
first_match-first_from sender p [] live = refl
first_match-first_from sender p (m ∷ ms) live = ground (arith, first_match-first_from sender p ms)

first_from-mem :
    (sender : ℕ → ℕ) (p : ℕ) (ms : List ℕ)
    → first_from sender p ms ≢ null
    → has (first_from sender p ms) ms ≡ true
first_from-mem sender p [] h = absurd (h refl)
first_from-mem sender p (m ∷ ms) h = ground (arith, first_from-mem sender p ms)

-- The result carries the sender that was asked for, and no message before it does.
pub first_from-sender :
    (sender : ℕ → ℕ) (p : ℕ) (ms : List ℕ)
    → first_from sender p ms ≢ null
    → sender (first_from sender p ms) ≡ p
first_from-sender sender p [] h = absurd (h refl)
first_from-sender sender p (m ∷ ms) h = ground (arith, first_from-sender sender p ms)

module _ (head : ℕ) (s : Store) (ms : List ℕ) (is : IsList s.mem head ms) (ne : head ≢ null) where
  -- `emptyMessageQ` tells whether the queue has no message, and `headMessage` gives its first one.
  pub head_message-head_or_null :
      (empty_message_q head s ≡ is_nil ms) × (head_message head s ≡ head_or_null ms)
  unfolding empty_message_q head_message
  head_message-head_or_null = ground (arith, list_empty-is_nil ms is, is.chain)

  -- `insertMessage` puts a message that is not in the queue at its end, `pushMessage` at its front.
  pub insert_message-append :
      (m : ℕ)
      → m ≢ null
      → has m (head ∷ ms) ≡ false
      → IsList (insert_message head m s).mem head (ms ++ m ∷ [])
        × IsList (push_message head m s).mem head (m ∷ ms)
  unfolding insert_message push_message
  insert_message-append m mn out =
      rw (==-false m null mn, ==-false head null ne)
        (list_add_tail-IsList m is out, list_add-IsList m is out)

-- The queue and the store after `popMessage` took out `m`, `NULL` for nothing.
abbrev pub Pops : (head : ℕ) → Store → List ℕ → (m : ℕ) → Option (ℕ × Store) → Type 0
Pops head s ms m r =
    (t : Store) × (r ≡ some (m, t)) × IsList t.mem head (erase m ms) × (m ≡ null → t ≡ s)

module _ (head : ℕ) (s : Store) (ms : List ℕ) (is : IsList s.mem head ms)
    (live : has null ms ≡ false) where
  Pops-found : (m : ℕ) → has m ms ≡ true → Pops head s ms m (some (m, on_mem (list_del m) s))
  Pops-found m i = (on_mem (list_del m) s, refl, list_del-IsList m is i, λ e. absurd (ground arith))

  Pops-null : Pops head s ms null (some (null, s))
  Pops-null = (s, refl, rw (erase_absent null ms live) is, λ e. refl)

  -- The loop of `popMessage` on a queue that is not empty.
  pop_found-first_from :
      (p : ℕ)
      → length ms ≤ max_messages
      → Pops head s ms
          (first_from s.m_sender p ms)
          (pop_found s (list_search search_fuel (λ iter. s.m_sender iter == p) head s.mem))
  pop_found-first_from p short =
      let m = first_from s.m_sender p ms in
      let loop =
        list_search-first_match search_fuel (λ iter. s.m_sender iter == p) is (omega arith) in
      rw (loop, first_match-first_from s.m_sender p ms live)
        (elim (Bool-cases (m == null)) [
          | inl e ↦ let e' : m ≡ null = ground arith in rw (e, e') Pops-null
          | inr e ↦ rw e (Pops-found m (first_from-mem s.m_sender p ms (λ q. ground arith)))
        ])

-- `popMessage` ends. Asked for any message it takes the first one; asked for a sender it takes the first
-- message of that sender and leaves the others in order; if there is none it returns `NULL` and changes
-- nothing.
pub pop_message-wanted :
    (head p : ℕ) (s : Store) (ms : List ℕ)
    → IsList s.mem head ms
    → head ≢ null
    → length ms ≤ max_messages
    → has null ms ≡ false
    → Pops head s ms (wanted s.m_sender p ms) (pop_message head p s)
unfolding pop_message
pop_message-wanted head p s [] is ne short live =
    rw (==-false head null ne, list_empty-is_nil [] is) (Pops-any p)
  where
    Pops-any : (q : ℕ) → Pops head s [] (wanted s.m_sender q []) (some (null, s))
    Pops-any q = (s, ground arith, is, λ e. refl)
pop_message-wanted head p s (m ∷ ms) is ne short live = elim (Bool-cases (p == null)) [
  | inl any ↦
      let first : wanted s.m_sender p (m ∷ ms) ≡ m = ground arith in
      subst (λ w. Pops head s (m ∷ ms) w (pop_message head p s)) (sym first)
        (rw (==-false head null ne, list_empty-is_nil (m ∷ ms) is, is.chain.0, any)
          (Pops-found head s (m ∷ ms) is live m (ground arith)))
  | inr one ↦
      let named : wanted s.m_sender p (m ∷ ms) ≡ first_from s.m_sender p (m ∷ ms) = ground arith in
      subst (λ w. Pops head s (m ∷ ms) w (pop_message head p s)) (sym named)
        (rw (==-false head null ne, list_empty-is_nil (m ∷ ms) is, one)
          (pop_found-first_from head s (m ∷ ms) is live p short))
]
