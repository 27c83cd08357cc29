-- ===== src/Support/Calls.antt =====
-- The requests of phase3/initProc.c to the service interface, the pool of support structures and the stack frames.
use progetto_so.Base.{ℕ, zero, suc, ◌+◌, ◌*◌, ◌%◌, [], ◌∷◌}
use progetto_so.Kernel.State.{ProcState}
use progetto_so.Kernel.Run.{add_word, sub_word}
use progetto_so.Kernel.State.{word_mod}
use progetto_so.Support.State.{
  Payload, nothing, io_request, process_request, end_request, support_request, send, receive,
  Answer, Level, World, Act, ◌>>=◌, ◌>>◌, done, returns, pure, modify, get, syscall,
}

-- `UPROCMAX`
abbrev pub uprocmax : ℕ
uprocmax = 8

-- The first free structure. If none is free, the head of the list is taken for one and the list stays empty.
unfoldable pub allocate : World → Act ℕ
allocate w l = elim l.free_support [
  | [] ↦ returns w.free_support_owner l
  | s ∷ ss ↦ returns s (record l { free_support = ss })
]

unfoldable pub deallocate : (support : ℕ) → Level → Level
deallocate s l = record l { free_support = s ∷ l.free_support }

-- The rounds of the loop of `initFreeSupportList` over the entries `support_arr[i]`.
unfoldable pub init_free_support_from : (support_arr : ℕ → ℕ) → (rounds i : ℕ) → Level → Level
unfolding deallocate
init_free_support_from support_arr zero i l = l
init_free_support_from support_arr (suc rounds) i l =
    init_free_support_from support_arr rounds (i + 1) (deallocate (support_arr i) l)

unfoldable pub init_free_support_list : (support_arr : ℕ → ℕ) → Level → Level
unfolding init_free_support_from
init_free_support_list support_arr l =
    init_free_support_from support_arr uprocmax 0 (record l { free_support = [] })

module _ (w : World) where
  unfoldable pub get_stack_frame : Act ℕ
  get_stack_frame l =
      (pure (sub_word (sub_word w.ram_top w.page_size) ((l.curr_offset * w.page_size) % word_mod)))
        (record l { curr_offset = add_word l.curr_offset 1 })

  -- A request to the service interface and the receipt of its answer.
  unfoldable pub request : Payload → Act Answer
  request p = do l ← get; _ ← syscall w (send l.ssi_pcb p); l ← get; syscall w (receive l.ssi_pcb)

  unfoldable pub do_io : (addr value : ℕ) → Act ℕ
  unfolding request
  do_io addr value = do
    a ← request (io_request addr value)
    modify λ l. record l { word = w.dma l.calls l.word }
    pure a.word

  unfoldable pub create_process : ProcState → (support : ℕ) → Act ℕ
  unfolding request
  create_process state support = do a ← request (process_request state support); pure a.word

  unfoldable pub terminate_proc : (p : ℕ) → Act (Unit {0})
  unfolding request
  terminate_proc p = do _ ← request (end_request p); done

  unfoldable pub get_support_ptr : Act ℕ
  unfolding request
  get_support_ptr = do a ← request support_request; pure a.word

  unfoldable pub signal_uproc_termination : Act (Unit {0})
  signal_uproc_termination = do l ← get; _ ← syscall w (send l.test_pcb nothing); done
