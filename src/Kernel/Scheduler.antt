-- ===== src/Kernel/Scheduler.antt =====
-- phase2/scheduler.c: the dispatcher, the moves of a process between running, ready and blocked, and the
-- accounting of processor time. `tod n` is what the clock shows when it is read for the `n`-th time.
pub mod Decision
use Prim.Native.Nat.{bit_and, bit_or}
use progetto_so.Base.{ℕ, ◌+◌, ◌-◌, ◌*◌, ◌%◌, ◌&&◌, [], ◌∷◌, ◌==◌, if◌then◌else◌, update}
use progetto_so.Listx.{null}
use progetto_so.Pcb.Queue.{head_or_null}
use progetto_so.Kernel.State.{ProcState, Kernel, sem_dev_len, word_mod}
use progetto_so.Kernel.Run.{
  Cmd, ldst, halt, panic, wait, returns, stops, ◌>>=◌, ◌>>◌, stop, modify, get, add_word, sub_word,
  int_gt,
}
use progetto_so.Kernel.Queues.{insert_ready, insert_blocked, out_blocked}

-- Constants of headers/const.h.
abbrev pub tebiton : ℕ
tebiton = 0x0800_0000

abbrev pub iecon : ℕ
iecon = 1

abbrev pub imon : ℕ
imon = 0xff00

abbrev pub timeslice : ℕ
timeslice = 5000

abbrev pub timescale_addr : ℕ
timescale_addr = 0x1000_0024

-- `~TEBITON`
abbrev pub tebitoff : ℕ
tebitoff = word_mod - 1 - tebiton

module _ (tod : ℕ → ℕ) where
  -- `IntervalTOD`: the clock is read once for the length and once for the new start.
  unfoldable pub interval_tod : Cmd ℕ
  interval_tod k =
      returns (sub_word (tod k.clock_reads) k.timer_start)
        (record k { timer_start = tod (k.clock_reads + 1); clock_reads = k.clock_reads + 2 })

  unfoldable pub update_process_cpu_time : Cmd (Unit {0})
  unfolding interval_tod
  update_process_cpu_time = do
    diff ← interval_tod
    modify λ k. record k {
      p_time = update k.p_time k.current_process (add_word (k.p_time k.current_process) diff);
    }

  -- The branch of `scheduler` with an empty ready queue, at its state. The three tests stand one after the
  -- other, and `HALT`, `WAIT` and `PANIC` do not return.
  unfoldable pub no_ready_process : Cmd (Unit {0})
  no_ready_process k =
      if (k.process_count == 1) && (k.p_pid (head_or_null (k.blocked_proc sem_dev_len)) == 1)
      then stops halt k
      else if int_gt k.process_count 1 && int_gt k.soft_block_count 0
      then stops wait
          (record k { cpu_status = bit_and (bit_or k.cpu_status (bit_or iecon imon)) tebitoff })
      else if int_gt k.process_count 0 && (k.soft_block_count == 0)
      then stops panic k
      else returns tt k

  -- The other branch: the local timer is started and the process is loaded.
  unfoldable pub dispatch : (p : ℕ) → Cmd (Unit {0})
  unfolding interval_tod
  dispatch p = do
    modify λ k. record k {
      p_s = update k.p_s p (record (k.p_s p) { status = bit_or (k.p_s p).status tebiton });
      local_timer = (timeslice * k.word timescale_addr) % word_mod;
    }
    _ ← interval_tod
    k ← get
    stop (ldst (k.p_s p))

  unfoldable pub scheduler : Cmd (Unit {0})
  unfolding no_ready_process dispatch
  scheduler k = elim k.ready_queue [
    | [] ↦ no_ready_process (record k { current_process = null })
    | p ∷ ps ↦ dispatch p (record k { current_process = p; ready_queue = ps })
  ]

  -- `blockProcess(state, index)`
  unfoldable pub block_process : ProcState → (index : ℕ) → Cmd (Unit {0})
  unfolding update_process_cpu_time scheduler
  block_process state index = do
    modify λ k. record k { p_s = update k.p_s k.current_process state }
    update_process_cpu_time
    modify λ k. insert_blocked index k.current_process k
    scheduler

-- `readyProcess(p, index)`
unfoldable pub ready_process : (p index : ℕ) → Kernel → Kernel
ready_process p index k = insert_ready p (out_blocked index p k)
