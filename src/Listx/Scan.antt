-- ===== src/Listx/Scan.antt =====
-- The loop `list_for_each_entry` of listx.h with a body that returns at a match.
use progetto_so.Base.{
  ℕ, zero, suc, ◌<◌, ◌≡◌, Bool, true, false, List, [], ◌∷◌, has, arith, length, if◌then◌else◌,
}
use progetto_so.Listx.{Mem, Search, found, absent, search_from, list_search, list_empty}
use progetto_so.Listx.Chain.{Linked, IsList, first, next-first}

-- The first entry that passes the test.
unfoldable pub first_match : (ℕ → Bool) → List ℕ → Search
first_match test [] = absent
first_match test (x ∷ xs) = if test x then found x else first_match test xs

search_from-Linked :
    (fuel : ℕ) (test : ℕ → Bool) (m : Mem) (a : ℕ) (xs : List ℕ) (h : ℕ)
    → Linked m a xs h
    → has h xs ≡ false
    → length xs < fuel
    → search_from fuel test (first xs h) h m ≡ first_match test xs
unfolding search_from first_match
search_from-Linked zero test m a xs h l hx f = elim f [ ]
search_from-Linked (suc fuel) test m a [] h l hx f = ground arith
search_from-Linked (suc fuel) test m a (x ∷ xs) h l hx f =
    ground (arith, next-first m x xs h l.2, search_from-Linked fuel test m x xs h l.2)

-- The loop ends, given more fuel than the list is long, and returns the first match.
pub list_search-first_match :
    (fuel : ℕ) (test : ℕ → Bool) {m : Mem} {h : ℕ} {xs : List ℕ}
    → IsList m h xs
    → length xs < fuel
    → list_search fuel test h m ≡ first_match test xs
unfolding list_search
list_search-first_match fuel test {m} {h} {xs} is f =
    rw (next-first m h xs h is.chain)
      (search_from-Linked fuel test m h xs h is.chain is.distinct.0 f)

-- `NULL` for an empty list, and a test for it.
abbrev pub is_nil : List ℕ → Bool
is_nil [] = true
is_nil (x ∷ xs) = false

pub list_empty-is_nil : {m : Mem} {h : ℕ} (xs : List ℕ) → IsList m h xs → list_empty h m ≡ is_nil xs
unfolding list_empty
list_empty-is_nil [] is = ground arith
list_empty-is_nil (x ∷ xs) is = ground arith
