-- ===== src/Kernel/Tests/Service.antt =====
-- Concrete requests: process 30 asks for its parent's identifier, and process 20 for a new process.
use progetto_so.Base.{◌≡◌, refl, [], ◌∷◌, arith, inr, update}
use progetto_so.Kernel.State.{Kernel}
use progetto_so.Kernel.Services.{Context, create_process_service}
use progetto_so.Kernel.Service.Reply.{Asks}
use progetto_so.Kernel.Service.Creation.{Outcome, create_process_service-Outcome}
use progetto_so.Kernel.Service.{AreActors}
use progetto_so.Kernel.Service.Answer.{AtRest, Served, answer, ssi_round-Served}
use progetto_so.Kernel.Tests.Samples.{sample, registers}

-- The request stands at 800: service 7, argument 1.
abbrev asking_30 : Kernel
asking_30 = record sample { ready_queue = []; word = update (update (λ a. 0) 800 7) 804 1 }

abbrev machine : Context
machine = record {
  tod = λ n. n;
  state_at = λ w a. registers;
  response_at = 900;
  dev_start = 0;
  dev_size = 16;
  fuel = 10;
}

abbrev actors_30 : AreActors 30 10 70 asking_30
actors_30 = record {
  client_live = λ e. omega (arith, e);
  ssi_live = λ e. omega (arith, e);
  message_live = λ e. omega (arith, e);
  apart = λ e. omega (arith, e);
  is_ssi = refl;
  client_alive = refl;
  ssi_alive = refl;
  plain = refl;
}

abbrev rest_30 : AtRest 30 10 asking_30
rest_30 = record {
  current = refl;
  ready = refl;
  waiting = refl;
  client_inbox = refl;
  ssi_inbox = refl;
}

-- The answer is the identifier of 20, which is 2.
answer_30 : answer 7 1 30 asking_30 ≡ 2
answer_30 = refl

ssi_round-Served_example : Served machine 30 10 800 810 820 2 (70 ∷ 74 ∷ []) asking_30
ssi_round-Served_example =
    ssi_round-Served machine 30 10 70 800 810 820 (74 ∷ []) asking_30 actors_30 rest_30 refl
      (inr refl) (λ e. omega (arith, e)) (λ e. omega (arith, e))

-- The service interface runs, and 20 waits for its answer.
abbrev waiting_20 : Kernel
waiting_20 = record sample {
  current_process = 10;
  ready_queue = [];
  blocked_proc = update (λ i. []) 49 (20 ∷ []);
}

abbrev asks_20 : Asks 20 10 70 (74 ∷ []) waiting_20
asks_20 = record {
  who = record {
    client_live = λ e. omega (arith, e);
    ssi_live = λ e. omega (arith, e);
    message_live = λ e. omega (arith, e);
    apart = λ e. omega (arith, e);
    is_ssi = refl;
    client_alive = refl;
    ssi_alive = refl;
    plain = refl;
  };
  current = refl;
  waits = refl;
  not_ready = refl;
  free = refl;
}

create_process_service-Outcome_example :
    Outcome 20 10 70
      (74 ∷ [])
      registers
      0
      waiting_20
      (create_process_service 900 (λ w a. registers) 20 800 waiting_20)
create_process_service-Outcome_example =
    create_process_service-Outcome 20 10 70 900 (74 ∷ []) (λ w a. registers) 800 waiting_20 asks_20
      refl
