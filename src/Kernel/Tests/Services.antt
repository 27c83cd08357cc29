-- ===== src/Kernel/Tests/Services.antt =====
-- Concrete runs of the services.
use progetto_so.Base.{◌≡◌, refl, [], ◌∷◌, arith, inl}
use progetto_so.Kernel.State.{Kernel}
use progetto_so.Kernel.Services.{
  wait_for_clock_service, create_process_service, start_process, send_response, get_process_id,
}
use progetto_so.Kernel.Messages.{send_message, deliver, fill_message}
use progetto_so.Kernel.Services.Clock.{Clocked, wait_for_clock_service-Clocked}
use progetto_so.Kernel.Tests.Samples.{sample, registers}

abbrev served : Kernel
served = record sample { current_process = 10 }

-- Process 20 gets block 50 as a child.
create_process_service-children :
    (create_process_service 900 (λ w a. registers) 20 800 served).p_child 20 ≡ 30 ∷ 31 ∷ 50 ∷ []
unfolding create_process_service start_process send_response send_message deliver fill_message
create_process_service-children = refl

-- The parent of 40 is 30, whose number is 2.
get_process_id-word : (get_process_id 900 40 1 served).word 900 ≡ 2
unfolding get_process_id send_response send_message deliver fill_message
get_process_id-word = refl

wait_for_clock_service-Clocked_example : Clocked 20 served (wait_for_clock_service 20 served)
wait_for_clock_service-Clocked_example =
    wait_for_clock_service-Clocked 20 served (λ e. omega (arith, e)) (inl (refl, refl))
