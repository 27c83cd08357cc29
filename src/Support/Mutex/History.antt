-- ===== src/Support/Mutex/History.antt =====
-- The histories of the mutex processes of phase3/vmSupport.c and phase3/deviceMutex.c: messages arrive and
-- rounds run in any order.
use progetto_so.Base.{
  ℕ, ◌≡◌, ◌≢◌, subst, false, List, [], ◌∷◌, ◌++◌, ◌==◌, has, update, arith, Bool-cases, inl, inr,
}
use progetto_so.Listx.{null}
use progetto_so.Support.Mutex.{Mutex, DeviceMutexes, swap_mutex, terminal_mutex, printer_mutex}
use progetto_so.Support.Mutex.Exclusion.{
  IsExclusive, Change, waits, sent, swap_mutex-Change, events, AreLive, events-IsExclusive,
}

abbrev pub send_to : ℕ → Mutex → Mutex
send_to p m = record m { inbox = m.inbox ++ p ∷ [] }

pub data SwapAction : Type 0 where
  request : ℕ → SwapAction
  round : SwapAction

abbrev pub act_swap : SwapAction → Mutex → Mutex
act_swap (request p) m = send_to p m
act_swap round m = swap_mutex m

-- Only processes send.
abbrev pub IsLiveSwap : SwapAction → Type 0
IsLiveSwap (request p) = p ≢ null
IsLiveSwap round = Unit {0}

act_swap-Change : (a : SwapAction) (m : Mutex) → IsLiveSwap a → Change m (act_swap a m)
act_swap-Change (request p) m live = sent live
act_swap-Change round m live = swap_mutex-Change m

-- Whatever processes send to the process `swap_mutex` and whenever it runs, one process at a time is inside:
-- each is let in when nobody is, and only that one is let out before the next comes in.
pub swap_mutex-IsExclusive :
    (actions : List SwapAction) (m : Mutex)
    → AreLive IsLiveSwap actions
    → has null m.inbox ≡ false
    → IsExclusive m.curr (events act_swap (λ u. u) actions m)
swap_mutex-IsExclusive actions m all live =
    events-IsExclusive act_swap (λ u. u) act_swap-Change actions m all live

pub data DeviceAction : Type 0 where
  request_terminal request_printer : (i p : ℕ) → DeviceAction
  round_terminal round_printer : (i : ℕ) → DeviceAction

abbrev pub act_device : DeviceAction → DeviceMutexes → DeviceMutexes
act_device (request_terminal i p) d = record d {
  terminal = update d.terminal i (send_to p (d.terminal i));
}
act_device (request_printer i p) d = record d {
  printer = update d.printer i (send_to p (d.printer i));
}
act_device (round_terminal i) d = terminal_mutex i d
act_device (round_printer i) d = printer_mutex i d

abbrev pub IsLiveDevice : DeviceAction → Type 0
IsLiveDevice (request_terminal i p) = p ≢ null
IsLiveDevice (request_printer i p) = p ≢ null
IsLiveDevice (round_terminal i) = Unit {0}
IsLiveDevice (round_printer i) = Unit {0}

-- A change of one entry of an array, seen at any entry.
Change-update :
    (f : ℕ → Mutex) (i j : ℕ) (u : Mutex) → Change (f j) u → Change (f i) (update f j u i)
Change-update f i j u c = elim (Bool-cases (i == j)) [
  | inl here ↦ let same : j ≡ i = ground arith in rw here (subst (λ k. Change (f k) u) same c)
  | inr away ↦ rw away waits
]

act_device-terminal :
    (i : ℕ) (a : DeviceAction) (d : DeviceMutexes)
    → IsLiveDevice a
    → Change (d.terminal i) ((act_device a d).terminal i)
unfolding terminal_mutex printer_mutex swap_mutex
act_device-terminal i (request_terminal j p) d live = Change-update d.terminal i j _ (sent live)
act_device-terminal i (request_printer j p) d live = waits
act_device-terminal i (round_terminal j) d live =
    Change-update d.terminal i j _ (swap_mutex-Change (d.terminal j))
act_device-terminal i (round_printer j) d live = waits

act_device-printer :
    (i : ℕ) (a : DeviceAction) (d : DeviceMutexes)
    → IsLiveDevice a
    → Change (d.printer i) ((act_device a d).printer i)
unfolding terminal_mutex printer_mutex swap_mutex
act_device-printer i (request_printer j p) d live = Change-update d.printer i j _ (sent live)
act_device-printer i (request_terminal j p) d live = waits
act_device-printer i (round_printer j) d live =
    Change-update d.printer i j _ (swap_mutex-Change (d.printer j))
act_device-printer i (round_terminal j) d live = waits

-- Whatever processes send to the sixteen device mutexes and whenever these run, in any order: for each terminal and each
-- printer, a process gets an answer only when nobody is inside, and nobody else gets one until the message by which that
-- process leaves has been received. Who is inside at the start is who the variable names.
pub device_mutexes-IsExclusive :
    (i : ℕ) (actions : List DeviceAction) (d : DeviceMutexes)
    → AreLive IsLiveDevice actions
    → has null (d.terminal i).inbox ≡ false
    → has null (d.printer i).inbox ≡ false
    → IsExclusive (d.terminal i).curr (events act_device (λ u. u.terminal i) actions d)
      × IsExclusive (d.printer i).curr (events act_device (λ u. u.printer i) actions d)
device_mutexes-IsExclusive i actions d all lt lp = (
  events-IsExclusive act_device (λ u. u.terminal i) (act_device-terminal i) actions d all lt,
  events-IsExclusive act_device (λ u. u.printer i) (act_device-printer i) actions d all lp,
)
