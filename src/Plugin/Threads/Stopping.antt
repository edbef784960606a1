-- ===== src/Plugin/Threads/Stopping.antt =====
-- comm.cpp: a manager that is told to stop ends.
use commissioner.Prelude.{ℕ, zero, suc, ◌-◌, ◌≡◌, ◌≤◌, Bool, true}
use commissioner.Plugin.Threads.{
  WorkerPc, absent, done, ManagerPc, Manager, Shared, Move, blocked, undefined, moved, manager_step,
  worker_step, test_changed, signal_old, join_old, create_commissioner, set_pointer, start_thread,
  report_petitioning, wait_petition, signal_late, join_late, report_timeout, clear_changed,
  test_stop, report_disabled, signal_last, join_last, free_commissioner, ended, init_dtls,
  poll_stop, handshake, check_valid, petition, report_error, notify_manager, report_active,
  check_running, update_fd_set, report_receive_error, process, announce, poll_again, notify_exit,
}

-- The steps that a worker has left when its promise is set.
abbrev steps_left : WorkerPc → ℕ
steps_left absent = 0
steps_left done = 0
steps_left init_dtls = 3
steps_left poll_stop = 2
steps_left handshake = 11
steps_left check_valid = 10
steps_left petition = 9
steps_left report_error = 2
steps_left notify_manager = 8
steps_left report_active = 7
steps_left check_running = 6
steps_left update_fd_set = 5
steps_left report_receive_error = 2
steps_left process = 4
steps_left announce = 3
steps_left poll_again = 2
steps_left notify_exit = 1

-- The worker takes steps of its own, and then the manager one; `choice` is what they are told.
abbrev pub work : ℕ → (ℕ → Bool) → Manager → Shared → Manager × Shared
work zero choice m s = (m, s)
work (suc n) choice m s = let (m', s') = worker_step (choice n) m s in work n choice m' s'

abbrev pub turn : (ℕ → Bool) → Manager → Shared → Move
turn choice m s = let (m', s') = work 11 choice m s in manager_step (choice 11) m' s'

abbrev pub turns : ℕ → (ℕ → ℕ → Bool) → Manager → Shared → Move
turns zero choice m s = moved m s
turns (suc n) choice m s = elim (turn (choice n) m s) [
  | blocked ↦ blocked
  | undefined ↦ undefined
  | moved m' s' ↦ turns n choice m' s'
]

-- The manager's own steps that are left when it is told to stop.
abbrev pcs_left : ManagerPc → ℕ
pcs_left test_changed = 17
pcs_left signal_old = 16
pcs_left join_old = 15
pcs_left create_commissioner = 14
pcs_left set_pointer = 13
pcs_left start_thread = 12
pcs_left report_petitioning = 11
pcs_left wait_petition = 10
pcs_left signal_late = 9
pcs_left join_late = 8
pcs_left report_timeout = 7
pcs_left clear_changed = 6
pcs_left test_stop = 5
pcs_left report_disabled = 4
pcs_left signal_last = 3
pcs_left join_last = 2
pcs_left free_commissioner = 1
pcs_left ended = 0

-- A manager that joins its worker has told it to stop.
abbrev Told : ManagerPc → Bool → Type 0
Told join_old told = told ≡ true
Told join_late told = told ≡ true
Told join_last told = told ≡ true
Told _ told = Unit

-- One step nearer to the end of the manager, or what is undefined.
data Nears (k : ℕ) : Move → Type 0 where
  breaks : Nears k undefined
  nears :
      {m : Manager} {s : Shared}
      → m.stop ≡ true
      → Told m.pc m.worker_stop
      → pcs_left m.pc ≤ k - 1
      → Nears k (moved m s)

pub data Ends : Move → Type 0 where
  breaks_off : Ends undefined
  ends : {m : Manager} {s : Shared} → m.pc ≡ ended → Ends (moved m s)

abbrev IsTold : Manager → Shared → Type 0
IsTold m s = Told m.pc m.worker_stop
