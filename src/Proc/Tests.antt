-- ===== src/Proc/Tests.antt =====
-- Runs of the process manager.
use system_operative_edit.Proc.User.{create_user}
use system_operative_edit.Proc.User.Spawn.{Spawned, create_user-Spawned}
use system_operative_edit.Proc.System.{Reach, IsSystem, start, later, creates, spawns}
use system_operative_edit.Proc.System.Reachable.{Reached, Reach-Reached}
use system_operative_edit.Proc.System.Boot.{start_tasks}
use system_operative_edit.Proc.System.Boot.Sound.{start_tasks-IsSystem}
use system_operative_edit.Sched.Dispatch.{Ticked}
use system_operative_edit.Base.{
  some, List, ℕ, ◌-◌, ◌≤◌, ◌<◌, ◌≡◌, refl, ◌⊎◌, true, [], ◌∷◌, arith, ◌==◌, if◌then◌else◌,
}
use system_operative_edit.Proc.{Kernel}
use system_operative_edit.Proc.Table.{zero_thread, zero_process}
use system_operative_edit.Proc.Stack.{setup_kernel_stack, setup_kernel_stack_lem, Words}
use system_operative_edit.Proc.Create.{Machine, create_kernel}
use system_operative_edit.Proc.Create.Created.{Outcome, create_kernel_lem}

-- Thread 1 is in use and alone in the queue; process 0 is active.
abbrev begin : Kernel
begin = record {
  processes = λ i. if i == 0 then record zero_process { active = true } else zero_process;
  threads = λ t. if t == 1 then record zero_thread { tid = 1; next = 1 } else zero_thread;
  next_pid = 1;
  next_tid = 2;
  current_thread = 1;
  queue_head = 1;
  queue_tail = 1;
  sched_current = 1;
  switches = 0;
  ticks = 0;
  cr3 = 0;
  esp0 = 0;
}

abbrev machine : Machine
machine = record {
  kernel = begin;
  frames = record { bitmap = λ i. 0; total_frames = 16; used = 0 };
  memory = λ a. 0;
  kernel_dir = 0x00800000;
}

setup_kernel_stack_lem_example :
    let (ctx, m') = setup_kernel_stack 0x00802000 0x00101000 (λ a. a) in
    (ctx ≡ 0x00802000 - 68)
    × Words m' ctx (
        0x10 ∷ 0x10 ∷ 0x10 ∷ 0x10 ∷ 0 ∷ 0 ∷ 0 ∷ 0 ∷ 0 ∷ 0 ∷ 0 ∷ 0 ∷ 0 ∷ 0 ∷ 0x00101000 ∷ 0x08
        ∷ 0x202 ∷ [])
    × ((a : ℕ) → (a < ctx) ⊎ (0x00802000 ≤ a) → m' a ≡ a)
setup_kernel_stack_lem_example =
    setup_kernel_stack_lem 0x00802000 0x00101000 (λ a. a) (omega arith) (omega arith)

create_kernel_lem_example :
    Outcome machine
      (b'g' ∷ [])
      0x00101000
      (1 ∷ [])
      (create_kernel (b'g' ∷ []) 0x00101000 machine).0
      (create_kernel (b'g' ∷ []) 0x00101000 machine).1
create_kernel_lem_example =
    create_kernel_lem (b'g' ∷ []) 0x00101000 machine (1 ∷ [])
      (refl, refl, (refl, omega arith, refl), (refl, tt)) (λ a inside. ground arith)

-- The machine with its one thread, which is the idle one.
machine-IsSystem : IsSystem 1 (1 ∷ []) machine
machine-IsSystem = record {
  sound = record {
    ring = (refl, refl, (refl, omega arith, refl), (refl, tt));
    current = refl;
    alone = λ p i ne. ground (arith, ne);
    agree = refl;
  };
  used = λ a i. ground arith;
  slots = λ a i. ground arith;
  counted = refl;
  quanta = λ a. ground arith;
  idle_queued = refl;
  idle_alive = refl;
}

create_user-Spawned_example :
    let (o, s') = create_user (b'u' ∷ []) 0x00200000 0x00300000 8192 machine in
    Spawned machine.kernel (1 ∷ []) (b'u' ∷ []) o s'.kernel
create_user-Spawned_example =
    create_user-Spawned (b'u' ∷ []) 0x00200000 0x00300000 8192 machine (1 ∷ [])
      machine-IsSystem.sound.ring machine-IsSystem.used

-- The machine after the creation of a kernel process and of a user process.
two_more :
    Reach 1 machine
      (create_user
        (b'u' ∷ [])
        0x00200000
        0x00300000
        8192
        (create_kernel (b'g' ∷ []) 0x00101000 machine).1).1
two_more =
    later (later start (creates (b'g' ∷ []) 0x00101000))
      (spawns (b'u' ∷ []) 0x00200000 0x00300000 8192)

Reach-Reached_example :
    Reached 1
      (1 ∷ [])
      machine
      (create_user
        (b'u' ∷ [])
        0x00200000
        0x00300000
        8192
        (create_kernel (b'g' ∷ []) 0x00101000 machine).1).1
Reach-Reached_example = Reach-Reached 1 (1 ∷ []) machine _ machine-IsSystem two_more

-- The machine before `proc_init`.
abbrev cold : Machine
cold = record machine {
  kernel = record begin { queue_head = 0; queue_tail = 0; next_tid = 1; sched_current = 0 };
}

start_tasks-IsSystem_example :
    (s' : Machine) × (xs : List ℕ) × (start_tasks 0x00101000 0x00102000 0x00200000 0x00300000 8192
        cold
      ≡ some s')
    × IsSystem 1 xs s'
    × Ticked s'.kernel xs
    × (s'.kernel.sched_current ≡ 1)
start_tasks-IsSystem_example =
    start_tasks-IsSystem 0x00101000 0x00102000 0x00200000 0x00300000 8192 cold refl refl refl
