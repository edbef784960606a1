-- ===== src/Plugin/Threads/Waiting.antt =====
-- comm.cpp: the mutex of the manager's condition variable.
use commissioner.Prelude.{◌≡◌, refl, sym, subst, Bool, true, false}
use commissioner.Plugin.Threads.{
  ManagerPc, Manager, Shared, undefined, is_over, join_worker, manager_step, worker_step, Step,
  Reach, here, next, join_old, create_commissioner, wait_petition, join_late, report_timeout,
  join_last, free_commissioner, manages, works, changes, stops,
}
use commissioner.Plugin.Threads.Alive.{Leads, blocks, fails, leads, led}

abbrev IsUnlocked : Manager → Shared → Type 0
IsUnlocked m s = m.locked ≡ false

join_worker-IsUnlocked :
    (m : Manager) (pc : ManagerPc) (s : Shared) (b : Bool)
    → is_over m.worker ≡ b
    → m.locked ≡ false
    → Leads IsUnlocked (join_worker m pc s)
unfolding join_worker
join_worker-IsUnlocked m pc s false e u = rw (e, join_worker) blocks
join_worker-IsUnlocked m pc s true e u = rw (e, join_worker) (leads u)

wait_undefined :
    (choice : Bool) (m : Manager) (s : Shared)
    → m.locked ≡ false
    → manager_step choice (record m { pc = wait_petition }) s ≡ undefined
unfolding manager_step
wait_undefined choice m s u = rw u refl

manager_step-IsUnlocked :
    (choice : Bool) (pc : ManagerPc) (m : Manager) (s : Shared)
    → m.locked ≡ false
    → Leads IsUnlocked (manager_step choice (record m { pc = pc }) s)
unfolding manager_step
manager_step-IsUnlocked choice join_old m s u =
    join_worker-IsUnlocked (record m { pc = join_old }) create_commissioner s _ refl u
manager_step-IsUnlocked choice join_late m s u =
    join_worker-IsUnlocked (record m { pc = join_late }) report_timeout s _ refl u
manager_step-IsUnlocked choice join_last m s u =
    join_worker-IsUnlocked (record m { pc = join_last }) free_commissioner s _ refl u
manager_step-IsUnlocked choice wait_petition m s u =
    subst (Leads IsUnlocked) (sym (wait_undefined choice m s u)) fails
manager_step-IsUnlocked choice _ m s u = leads u

Step-IsUnlocked :
    {m : Manager} {s : Shared} {m' : Manager} {s' : Shared}
    → Step m s m' s'
    → m.locked ≡ false
    → m'.locked ≡ false
unfolding worker_step
Step-IsUnlocked {m = m} {s = s} (manages choice h) u =
    led (subst (Leads IsUnlocked) h (manager_step-IsUnlocked choice m.pc m s u))
Step-IsUnlocked (works choice) u = u
Step-IsUnlocked changes u = u
Step-IsUnlocked stops u = u

Reach-IsUnlocked :
    {m : Manager} {s : Shared} {m' : Manager} {s' : Shared}
    → m.locked ≡ false
    → Reach m s m' s'
    → m'.locked ≡ false
Reach-IsUnlocked u here = u
Reach-IsUnlocked u (next r st) = Step-IsUnlocked st (Reach-IsUnlocked u r)

-- Once a manager has left the mutex unlocked, its next wait on the condition variable is undefined,
-- whatever happens in between.
pub wait_again :
    {m : Manager} {s : Shared} {m' : Manager} {s' : Shared} (choice : Bool)
    → m.locked ≡ false
    → Reach m s m' s'
    → m'.pc ≡ wait_petition
    → manager_step choice m' s' ≡ undefined
wait_again {m' = m'} {s' = s'} choice u r e =
    subst (λ pc. manager_step choice (record m' { pc = pc }) s' ≡ undefined) (sym e)
      (wait_undefined choice m' s' (Reach-IsUnlocked u r))
