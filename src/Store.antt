-- ===== src/Store.antt =====
-- The memory of phase 1: headers/types.h and the tables of phase1/pcb.c and phase1/msg.c. A pointer is
-- an address, `NULL` is 0. The links of all lists stand in one `Mem`; every other field of a struct is
-- a function of the address of its object.
use progetto_so.Base.{ℕ, zero, suc, ◌+◌, ◌*◌, ◌-◌, ◌^◌, ◌<◌, ◌≤◌, ◌≡◌, ◌⊎◌, List, [], ◌∷◌}
use progetto_so.Listx.{Mem}

abbrev pub max_proc : ℕ
max_proc = 40

abbrev pub max_messages : ℕ
max_messages = 40

-- What the compiler and the linker choose: the size of `state_t`, which the library of the emulator
-- declares, the addresses of the two tables and of the heads of their free lists, and the size of a
-- table entry.
pub record Layout : Type 0 where
  pub state_size : ℕ
  pub pcb_table : ℕ
  pub pcb_free_h : ℕ
  pub msg_table : ℕ
  pub msg_free_h : ℕ

-- `&p->p_child`, `&p->p_sib` and `&p->msg_inbox`; `p_list` is the first field of a `pcb_t`, so that
-- `&p->p_list` is `p` itself, and so it is with `m_list` of a `msg_t`.
abbrev pub p_child : ℕ → ℕ
p_child p = p + 12

abbrev pub p_sib : ℕ → ℕ
p_sib p = p + 20

abbrev pub msg_inbox : Layout → ℕ → ℕ
msg_inbox l p = p + (32 + l.state_size)

-- `container_of(a, pcb_t, p_sib)`
abbrev pub owner_of_sib : ℕ → ℕ
owner_of_sib a = a - 20

abbrev pub pcb_size : Layout → ℕ
pcb_size l = 48 + l.state_size

abbrev pub msg_size : ℕ
msg_size = 28

-- The fields of `pcb_t` that phase 1 writes, those of `msg_t`, and the counter `next_pid`.
pub record Store : Type 0 where
  pub mem : Mem
  pub p_parent : ℕ → ℕ
  pub p_time : ℕ → ℕ
  pub p_support : ℕ → ℕ
  pub p_entry_hi : ℕ → ℕ
  pub p_pid : ℕ → ℕ
  pub next_pid : ℕ
  pub m_sender : ℕ → ℕ
  pub m_payload : ℕ → ℕ
  pub m_string : ℕ → ℕ
  pub m_service : ℕ → ℕ
  pub m_arg : ℕ → ℕ

-- The `int` -1, as a word.
abbrev pub minus_one : ℕ
minus_one = 2 ^ 32 - 1

-- What the linker grants: no object overlaps another, and none lies at `NULL`.
pub record IsLayout (l : Layout) : Type 0 where
  pub table_live : 0 < l.pcb_table
  pub head_live : 0 < l.pcb_free_h
  pub head_apart :
      (l.pcb_free_h < l.pcb_table) ⊎ (l.pcb_table + max_proc * pcb_size l ≤ l.pcb_free_h)
  pub msg_table_live : 0 < l.msg_table
  pub msg_head_live : 0 < l.msg_free_h
  pub msg_head_apart :
      (l.msg_free_h < l.msg_table) ⊎ (l.msg_table + max_messages * msg_size ≤ l.msg_free_h)

-- `p` is `&pcbTable[index]`.
pub record IsPcb (l : Layout) (p : ℕ) : Type 0 where
  pub index : ℕ
  pub below : index < max_proc
  pub place : p ≡ l.pcb_table + index * pcb_size l

abbrev pub ArePcbs : Layout → List ℕ → Type 0
ArePcbs l [] = Unit {0}
ArePcbs l (p ∷ ps) = IsPcb l p × ArePcbs l ps

-- The first `n` entries of the table, the last of them first.
abbrev pub pcb_entries : Layout → ℕ → List ℕ
pcb_entries l zero = []
pcb_entries l (suc i) = (l.pcb_table + i * pcb_size l) ∷ pcb_entries l i

abbrev pub msg_entries : Layout → ℕ → List ℕ
msg_entries l zero = []
msg_entries l (suc i) = (l.msg_table + i * msg_size) ∷ msg_entries l i
