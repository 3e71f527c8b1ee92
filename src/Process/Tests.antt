-- ===== src/Process/Tests.antt =====
-- The theorems on the tables, of which all slots from 3 on are empty.
use radix_os.Base.{Option, [], false, if◌then◌else◌, length, ltb, none, refl, true, ℕ, ◌≡◌}
use radix_os.Exec.{done}
use radix_os.Slots.{Tried}
use radix_os.VmContract.{vm_contract_init}
use radix_os.Process.{
  SlotFlags, runnable, slot_empty, Tables, NewThread, max_thread_slots, thread_create,
  trap_frame_init_user, trap_frame_init_kernel,
}
use radix_os.Process.Create.{IsThread, free_thread, thread_create_lem}

abbrev some_flags : ℕ → SlotFlags
some_flags i = if ltb i 3 then runnable else slot_empty

abbrev some_tables : Tables
some_tables = record {
  processes = λ i. record {
    flags = some_flags i;
    pid = i;
    parent = none;
    p_page_directory = 0x10_0000;
    lock = false;
    name = [];
    memory_contract = vm_contract_init;
  };
  threads = λ i. record {
    flags = some_flags i;
    parent = 0;
    mailbox = none;
    tcb = record {
      context = [];
      tid = i;
      is_kernel = true;
      exec_cpu = 0;
      priotity = 0;
      prev = 0;
      next = 0;
    };
  };
  ps_lock = false;
  ts_lock = false;
  common_stack_top = λ c. 0x9000;
}

abbrev user_thread : NewThread
user_thread = record {
  parent = 1;
  entry_point = 0x40_0000;
  stack_top = 0xb000_0000;
  priority = 4;
  is_kernel = false;
  exec_cpu = 1;
}

thread_create_lem_example :
    (o : Option ℕ) × (t : Tables) × (thread_create user_thread some_tables ≡ done (o, t))
    × Tried
        (IsThread user_thread some_tables)
        (free_thread some_tables)
        some_tables
        max_thread_slots
        0
        o
        t
thread_create_lem_example = thread_create_lem user_thread some_tables refl

-- the sizes of the frames
user_frame_size : length (trap_frame_init_user 0x40_0000 0x9000 0xb000_0000) ≡ 19
unfolding trap_frame_init_user
user_frame_size = refl

kernel_frame_size : length (trap_frame_init_kernel 0x40_0000 0x9000 1) ≡ 17
unfolding trap_frame_init_kernel
kernel_frame_size = refl
