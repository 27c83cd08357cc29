-- ===== src/Support/Tests.antt =====
-- Concrete runs of the support level's models.
mod Samples
mod Paging
mod Exceptions
mod Start
mod Threads
use progetto_so.Base.{◌≡◌, refl, List, [], ◌∷◌, arith}
use progetto_so.Support.Mutex.{Mutex, DeviceMutexes, swap_mutex, admit, release}
use progetto_so.Support.Mutex.Exclusion.{IsExclusive, enters, leaves, events}
use progetto_so.Support.Mutex.History.{
  SwapAction, request, round, act_swap, swap_mutex-IsExclusive, DeviceAction, request_terminal,
  request_printer, round_terminal, round_printer, act_device, device_mutexes-IsExclusive,
}

abbrev empty_mutex : Mutex
empty_mutex = record { curr = 0; inbox = []; answered = [] }

-- Two processes ask, the second in vain until the first has left.
abbrev contest : List SwapAction
contest = request 5 ∷ request 6 ∷ round ∷ round ∷ request 5 ∷ round ∷ round ∷ []

contest-events : events act_swap (λ m. m) contest empty_mutex ≡ enters 5 ∷ leaves 5 ∷ enters 6 ∷ []
unfolding swap_mutex admit release
contest-events = refl

abbrev empty_mutexes : DeviceMutexes
empty_mutexes = record { terminal = λ i. empty_mutex; printer = λ i. empty_mutex }

abbrev device_contest : List DeviceAction
device_contest =
    request_terminal 2 5 ∷ request_printer 2 6 ∷ round_terminal 2 ∷ round_printer 2 ∷ []

device_mutexes-IsExclusive_example :
    IsExclusive 0 (events act_device (λ d. d.terminal 2) device_contest empty_mutexes)
    × IsExclusive 0 (events act_device (λ d. d.printer 2) device_contest empty_mutexes)
device_mutexes-IsExclusive_example =
    device_mutexes-IsExclusive 2 device_contest empty_mutexes
      (λ e. omega (arith, e), (λ e. omega (arith, e), (tt, (tt, tt)))) refl refl
