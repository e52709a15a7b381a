-- ===== src/ProcessMemory/Tests.antt =====
-- A process that is created and killed, with its memory.
use bit_shell_os.Base.{◌-◌, ◌≡◌, refl, none, some, [], ◌∷◌, arith, ◌==◌, if◌then◌else◌}
use bit_shell_os.Heap.{
  create_memory_manager, total_heap_size, alloc_mem, free_mem, take_block, take_live,
  insert_block_into_free_list, rest_size, heap_left,
}
use bit_shell_os.Heap.Alloc.{IsValid, create-IsValid}
use bit_shell_os.Process.{new_process, init_process, load_process, delete_process, from_pid, tail}
use bit_shell_os.Scheduler.Invariant.{Stands}
use bit_shell_os.Scheduler.{
  running, unset, init_scheduler, create_process, kill_pid, remove_process,
}
use bit_shell_os.ProcessMemory.{
  Machine, create_in_memory, kill_in_memory, Reach, creates, kills, turns, here, next,
}
use bit_shell_os.ProcessMemory.Leaks.{creations, heap_is_restored}

abbrev empty : Machine
empty = record {
  scheduler = record (init_scheduler 100) { next_pid = 5 };
  heap = create_memory_manager 4096;
  node = λ pid. 0;
}

abbrev one_process : Machine
one_process = record {
  scheduler = record empty.scheduler {
    processes = new_process 5 3 [] none none 4312 ∷ [];
    next_pid = 6;
  };
  heap = record {
    free_list = record { addr = 8408; size = total_heap_size - 4312 } ∷ [];
    live = record { addr = 4296; size = 4112 } ∷ record { addr = 4096; size = 200 } ∷ [];
    free_bytes_remaining = total_heap_size - 4312;
  };
  node = λ pid. if 5 == pid then 4112 else 0;
}

abbrev killed : Machine
killed = record {
  scheduler = record empty.scheduler { next_pid = 6 };
  heap = record {
    free_list =
        record { addr = 4096; size = 200 }
        ∷ record { addr = 4296; size = 4112 }
        ∷ record { addr = 8408; size = total_heap_size - 4312 }
        ∷ [];
    live = [];
    free_bytes_remaining = total_heap_size;
  };
  node = one_process.node;
}

create_five : create_in_memory 3 [] none none [] empty ≡ some (one_process, 5)
unfolding create_in_memory alloc_mem take_block insert_block_into_free_list rest_size create_process
    new_process init_process load_process init_scheduler create_memory_manager
create_five = refl

kill_five : kill_in_memory 5 one_process ≡ some killed
unfolding kill_in_memory kill_pid remove_process free_mem take_live insert_block_into_free_list
    delete_process from_pid tail new_process init_process init_scheduler
kill_five = refl

empty-Stands : Stands empty.scheduler.current
unfolding init_scheduler
empty-Stands = tt

-- The process is created, becomes the current one, and is killed when it is not any more.
abbrev lived : Reach empty killed
unfolding init_scheduler
lived =
    next
      (next
        (next
          (next here (creates 3 [] none none [] 5 one_process empty-Stands (λ e. refl) create_five))
          (turns (running 5)))
        (turns unset))
      (kills 5 killed tt kill_five)

heap_is_restored_example :
    IsValid 4096 killed.heap × (killed.heap.live ≡ []) × (heap_left killed.heap ≡ total_heap_size)
unfolding creations create_memory_manager init_scheduler heap_left
heap_is_restored_example =
    heap_is_restored 4096 empty killed lived (create-IsValid 4096 refl) refl (omega arith) refl
