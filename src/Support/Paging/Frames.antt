-- ===== src/Support/Paging/Frames.antt =====
-- The choice of a frame: `getFrame` of phase3/vmSupport.c.
use progetto_so.Base.{
  ℕ, zero, suc, ◌+◌, ◌-◌, ◌%◌, ◌<◌, ◌≡◌, ◌⊎◌, inl, inr, refl, subst, ◌∙◌, true, false, Bool-cases,
  arith,
}
use progetto_so.Support.State.{Swap, Level}
use progetto_so.Support.Paging.{poolsize, is_free_frame, seek_frame, get_frame}

-- The entry that is `d` places after `i` in the ring.
abbrev pub place : (i d : ℕ) → ℕ
place i d = (i + d) % poolsize

-- The search from `i` ends at the first free entry, `d` places on, or passes all `n` places.
abbrev IsSought : (pool : ℕ → Swap) (n i j : ℕ) → Type 0
IsSought pool n i j =
    ((d : ℕ) × (d < n)
      × (j ≡ place i d)
      × (is_free_frame (pool j) ≡ true)
      × ((e : ℕ) → e < d → is_free_frame (pool (place i e)) ≡ false))
    ⊎ ((j ≡ place i n) × ((e : ℕ) → e < n → is_free_frame (pool (place i e)) ≡ false))

place_next : (i d : ℕ) → place ((i + 1) % poolsize) d ≡ place i (suc d)
place_next i d = omega arith

-- The places passed, with the one before them.
all_passed :
    (pool : ℕ → Swap) (n i : ℕ)
    → i < poolsize
    → is_free_frame (pool i) ≡ false
    → ((e : ℕ) → e < n → is_free_frame (pool (place ((i + 1) % poolsize) e)) ≡ false)
    → (e : ℕ) → e < suc n
    → is_free_frame (pool (place i e)) ≡ false
all_passed pool n i b here later zero l =
    subst (λ k. is_free_frame (pool k) ≡ false) (omega (arith, b)) here
all_passed pool n i b here later (suc e) l =
    subst (λ k. is_free_frame (pool k) ≡ false) (place_next i e) (later e (omega (arith, l)))

seek_frame-IsSought :
    (pool : ℕ → Swap) (n i : ℕ) → i < poolsize → IsSought pool n i (seek_frame n pool i)
unfolding seek_frame
seek_frame-IsSought pool zero i b = inr (omega (arith, b), λ e l. absurd (omega (arith, l)))
seek_frame-IsSought pool (suc n) i b = elim (Bool-cases (is_free_frame (pool i))) [
  | inl here ↦
      rw here (inl (zero, omega arith, omega (arith, b), here, λ e l. absurd (omega (arith, l))))
  | inr taken ↦ rw taken (elim (seek_frame-IsSought pool n ((i + 1) % poolsize) (omega arith)) [
    | inl (d, l, j, free, before) ↦
        inl (suc d, omega (arith, l), j ∙ place_next i d, free, all_passed pool d i b taken before)
    | inr (j, before) ↦ inr (j ∙ place_next i n, all_passed pool n i b taken before)
  ])
]

-- What `getFrame` gives: the first free entry from the counter on, or the one at the counter if none is free.
pub record Picked (l : Level) (j : ℕ) (t : Level) : Type 0 where
  pub below : j < poolsize
  pub picked :
      ((d : ℕ) × (d < poolsize)
        × (j ≡ place l.frame_index d)
        × (is_free_frame (l.swap_pool_table j) ≡ true)
        × ((e : ℕ) → e < d → is_free_frame (l.swap_pool_table (place l.frame_index e)) ≡ false))
      ⊎ ((j ≡ l.frame_index)
          × ((f : ℕ) → f < poolsize → is_free_frame (l.swap_pool_table f) ≡ false))
  pub counter : (t.frame_index ≡ place j 1) × (t.frame_index < poolsize)
  pub pool : t.swap_pool_table ≡ l.swap_pool_table

-- Every entry lies some places after the counter.
all_places :
    (l : Level)
    → l.frame_index < poolsize
    → ((e : ℕ) → e < poolsize → is_free_frame (l.swap_pool_table (place l.frame_index e)) ≡ false)
    → (f : ℕ) → f < poolsize
    → is_free_frame (l.swap_pool_table f) ≡ false
all_places l b none f c =
    subst (λ k. is_free_frame (l.swap_pool_table k) ≡ false) (omega (arith, b, c))
      (none ((f + 16 - l.frame_index) % poolsize) (omega arith))

-- `getFrame` gives an entry of the pool: the first free one from the counter on, in the order of the ring, and only
-- if none of the sixteen is free the one at the counter. The counter then stands behind it, so that a full pool
-- is used in turn, and no entry changes.
pub get_frame-Picked :
    (l : Level) → l.frame_index < poolsize → Picked l (get_frame l).0 (get_frame l).1
unfolding get_frame
get_frame-Picked l b = elim (seek_frame-IsSought l.swap_pool_table poolsize l.frame_index b) [
  | inl (d, e, j, free, before) ↦ record {
    below = omega (arith, j);
    picked = inl (d, e, j, free, before);
    counter = (refl, omega arith);
    pool = refl;
  }
  | inr (j, before) ↦ record {
    below = omega (arith, j);
    picked = inr (j ∙ omega (arith, b), all_places l b before);
    counter = (refl, omega arith);
    pool = refl;
  }
]
