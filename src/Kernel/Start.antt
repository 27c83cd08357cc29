-- ===== src/Kernel/Start.antt =====
-- phase2/initial.c: how the nucleus starts.
pub mod Boot
use progetto_so.Base.{ℕ, zero, suc, ◌+◌, ◌*◌, ◌%◌, List, [], ◌∷◌, ◌==◌, if◌then◌else◌, update}
use progetto_so.Listx.{null}
use progetto_so.Kernel.State.{Kernel, ProcState, word_mod}
use progetto_so.Kernel.Run.{Cmd, ◌>>=◌, ◌>>◌, modify, add_word, sub_word}
use progetto_so.Kernel.Queues.{insert_ready}
use progetto_so.Kernel.Scheduler.{scheduler}
use progetto_so.Kernel.Interrupts.{psecond}
use progetto_so.Kernel.Services.{take_pcb}

-- What the linker and the machine give: the entries of the two tables, the last first, the addresses of functions
-- and of the four words of the pass up vector, the end of the memory, and what the stack holds where the
-- variables of `init_ssi` and `init_test` stand.
pub record Machinery : Type 0 where
  pub tod : ℕ → ℕ
  pub pcb_entries : List ℕ
  pub msg_entries : List ℕ
  pub page_size : ℕ
  pub ram_top : ℕ
  pub refill_handler_at : ℕ
  pub refill_stack_at : ℕ
  pub exception_handler_at : ℕ
  pub exception_stack_at : ℕ
  pub refill_code : ℕ
  pub exception_code : ℕ
  pub ssi_code : ℕ
  pub test_code : ℕ
  pub ssi_state : ProcState
  pub test_state : ProcState

-- `allocPcb()`: the block, and the state it leaves.
abbrev pub alloc : Kernel → ℕ × Kernel
alloc k = elim k.pcb_free [ [] ↦ (null, k) | p ∷ ps ↦ (p, take_pcb p ps k) ]

-- `DEVNUM`
abbrev pub devnum : ℕ
devnum = 50

-- The rounds of the loop that empties the lists of blocked processes.
unfoldable pub empty_lists_from : (rounds i : ℕ) → Kernel → Kernel
empty_lists_from zero i k = k
empty_lists_from (suc rounds) i k =
    empty_lists_from rounds (i + 1) (record k { blocked_proc = update k.blocked_proc i [] })

-- The queue of a process that has got its state.
abbrev pub enqueue : (p : ℕ) → ProcState → Kernel → Kernel
enqueue p s k₀ =
    let k = insert_ready p (record k₀ { p_s = update k₀.p_s p s }) in
    record k { process_count = add_word k.process_count 1 }

-- `memcpy` on a memory of bytes, from the `i`-th on. The program calls it nowhere by name.
unfoldable pub memcpy_from : (dest src rounds i : ℕ) → (ℕ → ℕ) → ℕ → ℕ
memcpy_from dest src zero i byte = byte
memcpy_from dest src (suc rounds) i byte =
    memcpy_from dest src rounds (i + 1) (update byte (dest + i) (byte (src + i)))

unfoldable pub memcpy : (dest src n : ℕ) → (ℕ → ℕ) → ℕ → ℕ
unfolding memcpy_from
memcpy dest src n byte = memcpy_from dest src n 0 byte

module _ (h : Machinery) where
  unfoldable pub init_ssi : Kernel → Kernel
  init_ssi k₀ =
      let (p, k) = alloc k₀ in
      enqueue p
        (record h.ssi_state {
          status = 0xff04;
          reg_sp = h.ram_top;
          pc_epc = h.ssi_code;
          reg_t9 = h.ssi_code;
        })
        (record k { ssi_pcb = p })

  unfoldable pub init_test : Kernel → Kernel
  init_test k₀ =
      let (p, k) = alloc k₀ in
      enqueue p
        (record h.test_state {
          status = 0x0800_ff04;
          reg_sp = sub_word h.ram_top ((2 * h.page_size) % word_mod);
          pc_epc = h.test_code;
          reg_t9 = h.test_code;
        })
        (record k { test_pcb = p })

  -- The pass up vector, where the firmware finds the handlers.
  unfoldable pub pass_up_vector : Kernel → Kernel
  pass_up_vector k = record k {
    word =
        update
          (update
            (update (update k.word h.refill_handler_at h.refill_code) h.refill_stack_at 0x2000_1000)
            h.exception_handler_at h.exception_code)
          h.exception_stack_at 0x2000_1000;
  }

  -- `main` up to its last call.
  unfoldable pub init_nucleus : Kernel → Kernel
  unfolding pass_up_vector empty_lists_from
  init_nucleus k₀ =
      let k = pass_up_vector k₀ in
      empty_lists_from devnum 0 (record k {
        pcb_free = h.pcb_entries;
        msg_free = h.msg_entries;
        process_count = 0;
        soft_block_count = 0;
        ready_queue = [];
        current_process = null;
      })

  unfoldable pub main : Cmd (Unit {0})
  unfolding init_nucleus init_ssi init_test
  main = do
    modify init_nucleus
    modify λ k. record k { interval_timer = psecond }
    modify init_ssi
    modify init_test
    scheduler h.tod
