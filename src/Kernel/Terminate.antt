-- ===== src/Kernel/Terminate.antt =====
-- `TerminateProcess` of phase2/ssi.c: the end of a process and all its progeny. The recursion and its loop
-- run on fuel.
pub mod Unlink
pub mod Tree
pub mod Progeny
use progetto_so.Base.{
  ℕ, zero, suc, ◌+◌, Bool, List, [], ◌∷◌, ◌==◌, if◌then◌else◌, has, erase, update,
}
use progetto_so.Listx.{null}
use progetto_so.Kernel.State.{Kernel, sem_dev_len}
use progetto_so.Kernel.Run.{
  Cmd, returns, stops, panic, out_of_fuel, ◌>>=◌, ◌>>◌, and_then, modify, sub_word,
}
use progetto_so.Kernel.Queues.{out_ready, out_blocked, out_child, remove_child, free_pcb}

-- The loop over the device lists from the `i`-th on, which ends at the first that holds the process.
unfoldable pub out_devices_from : (rounds i p : ℕ) → Kernel → Kernel
out_devices_from zero i p k = k
out_devices_from (suc rounds) i p k =
    let rest = out_devices_from rounds (i + 1) p k in
    if has p (k.blocked_proc i)
    then record (out_blocked i p k) { soft_block_count = sub_word k.soft_block_count 1 }
    else rest

-- What is done to the process itself before its children are looked at.
unfoldable pub unlink_process : (p : ℕ) → Kernel → Kernel
unfolding out_devices_from
unlink_process p k₀ =
    let k = out_child p k₀ in
    out_devices_from sem_dev_len 0 p (
      out_blocked sem_dev_len p
        (out_ready p (record k { process_count = sub_word k.process_count 1 })))

-- `while ((child = removeChild(process)) != NULL) TerminateProcess(child);` where `kill` is the call.
unfoldable pub kill_children : (ℕ → Cmd (Unit {0})) → (fuel p : ℕ) → Cmd (Unit {0})
kill_children kill zero p k = stops out_of_fuel k
kill_children kill (suc fuel) p k = elim (k.p_child p) [
  | [] ↦ returns tt k
  | c ∷ cs ↦ and_then (kill c (remove_child p c cs k)) (λ _. kill_children kill fuel p)
]

unfoldable pub terminate_process : (fuel p : ℕ) → Cmd (Unit {0})
unfolding unlink_process kill_children
terminate_process zero p k = stops out_of_fuel k
terminate_process (suc fuel) p k =
    let rest =
      and_then (kill_children (terminate_process fuel) fuel p (unlink_process p k))
        (λ _. modify (free_pcb p)) in
    if p == k.ssi_pcb then stops panic k else if has p k.pcb_free then returns tt k else rest
