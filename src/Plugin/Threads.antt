-- ===== src/Plugin/Threads.antt =====
-- src/comm.cpp and inc/thread_api.hpp: the manager thread, and the commissioner thread that it starts
-- and stops. A step goes up to the next use of what the threads share; what the network, the clock and
-- `select` decide is the argument `choice`. A commissioner object is a number.
pub mod Alive
pub mod Waiting
pub mod Stopping
pub mod Reset
use commissioner.Prelude.{ℕ, ◌+◌, ◌≡◌, Bool, true, false, Option, none, some, ◌==◌, if◌then◌else◌}

pub data StatusText : Type 0 where
  disabled petitioning petitioning_error active receive_error timeout : StatusText

-- The commissioner thread, by what it does next; `absent` is no thread, `done` one that has returned.
pub data WorkerPc : Type 0 where
  absent done : WorkerPc
  init_dtls poll_stop handshake check_valid petition report_error notify_manager report_active :
      WorkerPc
  check_running update_fd_set report_receive_error process announce poll_again notify_exit :
      WorkerPc

-- The manager thread, by what it does next.
pub data ManagerPc : Type 0 where
  test_changed signal_old join_old create_commissioner set_pointer start_thread : ManagerPc
  report_petitioning wait_petition signal_late join_late report_timeout clear_changed : ManagerPc
  test_stop report_disabled signal_last join_last free_commissioner ended : ManagerPc

-- A manager with the worker it owns: `comm` and `worker` are what `Comm` and `Init` point to,
-- `worker_stop` and `stop` the two promises, `locked` whether `cv_m` is locked.
pub record Manager : Type 0 where
  pub pc : ManagerPc
  pub comm : Option ℕ
  pub worker : WorkerPc
  pub worker_stop : Bool
  pub stop : Bool
  pub locked : Bool

-- What the threads of the plugin share; `pointer` is its member `commissioner`.
pub record Shared : Type 0 where
  pub pointer : Option ℕ
  pub alive : ℕ → Bool
  pub next : ℕ
  pub changed : Bool
  pub status : StatusText

-- A step of a manager: it waits for its worker, it does what is undefined, or it moves.
pub data Move : Type 0 where
  blocked undefined : Move
  moved : Manager → Shared → Move

-- `start`: the state of a new manager thread.
unfoldable pub new_manager : Manager
new_manager = record {
  pc = test_changed;
  comm = none;
  worker = absent;
  worker_stop = false;
  stop = false;
  locked = true;
}

abbrev pub is_over : WorkerPc → Bool
is_over absent = true
is_over done = true
is_over _ = false

abbrev pub set_alive : (ℕ → Bool) → ℕ → Bool → ℕ → Bool
set_alive alive i b j = if j == i then b else alive j

unfoldable pub release : Option ℕ → (ℕ → Bool) → ℕ → Bool
release none alive = alive
release (some i) alive = set_alive alive i false

unfoldable pub goto : Manager → ManagerPc → Manager
goto m pc = record m { pc = pc }

-- `join`, and the end of the thread object.
unfoldable pub join_worker : Manager → ManagerPc → Shared → Move
unfolding goto
join_worker m pc s =
    if is_over m.worker then moved (record m { pc = pc; worker = absent }) s else blocked

unfoldable pub manager_step : Bool → Manager → Shared → Move
unfolding goto join_worker release
manager_step choice m s = elim m.pc [
  | test_changed ↦ moved (goto m (if s.changed then signal_old else test_stop)) s
  | signal_old ↦ moved (record m { pc = join_old; worker_stop = true }) s
  | join_old ↦ join_worker m create_commissioner s
  | create_commissioner ↦
      moved (record m { pc = set_pointer; comm = some s.next })
        (record s { alive = release m.comm (set_alive s.alive s.next true); next = s.next + 1 })
  | set_pointer ↦ moved (goto m start_thread) (record s { pointer = m.comm })
  | start_thread ↦
      moved (record m { pc = report_petitioning; worker = init_dtls; worker_stop = false }) s
  | report_petitioning ↦ moved (goto m wait_petition) (record s { status = petitioning })
  | wait_petition ↦
      if m.locked
      then moved (record m { pc = if choice then clear_changed else signal_late; locked = false }) s
      else undefined
  | signal_late ↦ moved (record m { pc = join_late; worker_stop = true }) s
  | join_late ↦ join_worker m report_timeout s
  | report_timeout ↦ moved (goto m clear_changed) (record s { status = timeout })
  | clear_changed ↦ moved (goto m test_stop) (record s { changed = false })
  | test_stop ↦ moved (goto m (if m.stop then report_disabled else test_changed)) s
  | report_disabled ↦ moved (goto m signal_last) (record s { status = disabled })
  | signal_last ↦ moved (record m { pc = join_last; worker_stop = true }) s
  | join_last ↦ join_worker m free_commissioner s
  | free_commissioner ↦
      moved (record m { pc = ended; comm = none }) (record s { alive = release m.comm s.alive })
  | ended ↦ moved m s
]

-- Where the commissioner thread goes next.
unfoldable pub worker_next : Bool → Bool → WorkerPc → WorkerPc
worker_next stop choice absent = absent
worker_next stop choice done = done
worker_next stop choice init_dtls = poll_stop
worker_next stop choice poll_stop = if stop then notify_exit else handshake
worker_next stop choice handshake = if choice then poll_stop else check_valid
worker_next stop choice check_valid = if choice then petition else report_error
worker_next stop choice petition = notify_manager
worker_next stop choice report_error = notify_exit
worker_next stop choice notify_manager = report_active
worker_next stop choice report_active = check_running
worker_next stop choice check_running = if choice then update_fd_set else notify_exit
worker_next stop choice update_fd_set = if choice then process else report_receive_error
worker_next stop choice report_receive_error = notify_exit
worker_next stop choice process = if choice then announce else poll_again
worker_next stop choice announce = poll_again
worker_next stop choice poll_again = if stop then notify_exit else check_running
worker_next stop choice notify_exit = done

abbrev pub worker_status : WorkerPc → StatusText → StatusText
worker_status report_error s = petitioning_error
worker_status report_active s = active
worker_status report_receive_error s = receive_error
worker_status _ s = s

unfoldable pub worker_step : Bool → Manager → Shared → Manager × Shared
unfolding worker_next
worker_step choice m s = (
  record m { worker = worker_next m.worker_stop choice m.worker },
  record s { status = worker_status m.worker s.status },
)

-- The calls that go through the plugin's pointer to the commissioner.
abbrev pub uses_commissioner : WorkerPc → Bool
uses_commissioner init_dtls = true
uses_commissioner handshake = true
uses_commissioner check_valid = true
uses_commissioner petition = true
uses_commissioner check_running = true
uses_commissioner update_fd_set = true
uses_commissioner process = true
uses_commissioner announce = true
uses_commissioner _ = false

-- What one manager and its worker do, with the requests that come in.
pub data Step : Manager → Shared → Manager → Shared → Type 0 where
  manages :
      {m m' : Manager} {s s' : Shared} (choice : Bool)
      → manager_step choice m s ≡ moved m' s'
      → Step m s m' s'
  works :
      {m : Manager} {s : Shared} (choice : Bool)
      → Step m s (worker_step choice m s).0 (worker_step choice m s).1
  changes : {m : Manager} {s : Shared} → Step m s m (record s { changed = true })
  stops : {m : Manager} {s : Shared} → Step m s (record m { stop = true }) s

pub data Reach (m : Manager) (s : Shared) : Manager → Shared → Type 0 where
  here : Reach m s m s
  next :
      {m' m'' : Manager} {s' s'' : Shared}
      → Reach m s m' s'
      → Step m' s' m'' s''
      → Reach m s m'' s''
