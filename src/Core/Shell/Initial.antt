-- ===== src/Core/Shell/Initial.antt =====
-- The shell starts with the invariant.
use pico_shell.Base.{Bytes, List, Ptr, [], arith, get_or-replicate_default, none, refl, ℕ, ◌*◌}
use pico_shell.Commands.Programs.Loading.{Schedulable}
use pico_shell.Core.Shell.{initial, initial_mem}
use pico_shell.Fs.Inode.{Inode}
use pico_shell.Memory.Frames.{frame_size, frame_store_size}
use pico_shell.Memory.Lru.{num_frames}
use pico_shell.Memory.Lru.Chain.{AllFresh}
use pico_shell.Memory.Lru.Init.{count_from, lru_init-IsOrder}
use pico_shell.Memory.Lru.Members.{count_from-Complete}
use pico_shell.Memory.Manager.Invariant.{IsPaged}
use pico_shell.Memory.Variables.{is_free}
use pico_shell.Scheduling.Queue.Order.{Follows}
use pico_shell.Scheduling.Scheduler.Tasks.{AllReady}
use pico_shell.System.{Host}

-- no frame holds a page, and no process is there
pub initial_mem-IsPaged : IsPaged initial_mem
unfolding is_free
initial_mem-IsPaged = record {
  store = record { lines = refl; entries = refl };
  frames = count_from 0 num_frames;
  order = lru_init-IsOrder;
  complete = count_from-Complete;
  mapped = λ at page h present. absurd (present refl);
  owned = λ f b full. absurd (
      ground (
        arith,
        full,
        get_or-replicate_default {A = Ptr (List ℕ)} frame_store_size (f * frame_size) none,
      ));
}

-- What main starts with: an empty queue, the memory's invariant, and no processes.
pub initial-Schedulable :
    (host : Host) (disk : Bytes) (cwd : Inode) → Schedulable (initial host disk cwd) []
unfolding Follows AllFresh AllReady
initial-Schedulable host disk cwd = record {
  queue = record { follows = refl; fresh = tt; count = refl; few = omega arith };
  paged = initial_mem-IsPaged;
  unallocated = record { blank = λ a h. refl; loose = λ a h. refl };
  ready = tt;
}
