-- ===== src/Fs/Tests/Cached.antt =====
-- The theorems on the inodes in memory, at a file system with inode 3 of a new device.
use ece344lab.Common.{refl, true, arith, [], none, some, if◌then◌else◌, ◌==◌}
use ece344lab.Common.Int.{pos}
use ece344lab.Common.Action.{pure, ◌>>=◌}
use ece344lab.Fs.Inode.{Inode}
use ece344lab.Fs.Mount.{chains}
use ece344lab.Fs.Mount.Format.{fresh}
use ece344lab.Fs.Cache.{Core, zero_dinode, testfs_get_inode, testfs_sync_inode, testfs_put_inode}
use ece344lab.Fs.Cache.Store.{Stores, sync-Stores}
use ece344lab.Fs.Cache.Put.{Leaves, put-get}
use ece344lab.Fs.Cache.Get.{Missing, Shares, get-Shares}

-- Inode 200, dirty, at address 0.
abbrev dirty_node : Inode
dirty_node = record {
  in_disk = record zero_dinode { i_type = pos 1; i_size = pos 20 };
  dirty = true;
  i_nr = 200;
  i_count = pos 1;
}

abbrev core : Core
core = record {
  fs = record { super = fresh 1000; table = chains (λ h. []) };
  nodes = λ a. if a == 0 then some dirty_node else none;
  next = 1;
}

sync-Stores_example : Stores core 0 dirty_node (testfs_sync_inode 0 core)
sync-Stores_example =
    sync-Stores core 0 dirty_node
      (record {
        node = refl;
        number = omega arith;
        inodes = refl;
        on_disk = omega arith;
        in_range = record {
          kind = omega arith;
          direct = λ k lt. omega arith;
          indirect = omega arith;
          dindirect = omega arith;
          count = omega arith;
          size = omega arith;
        };
      })
      refl

abbrev three : Missing core 3
three = record {
  table_of = λ h. [];
  table = refl;
  absent = tt;
  number = omega arith;
  inodes = refl;
  on_disk = omega arith;
}

get-Shares_example :
    Shares core 3
      ((testfs_get_inode true 3 >>= λ a. testfs_get_inode true 3 >>= λ b. pure (a, b)) core)
get-Shares_example = get-Shares core 3 true three

three_put : Leaves core ((testfs_get_inode true 3 >>= testfs_put_inode) core)
three_put = put-get core 3 three (record { used = λ h. tt; free = refl })
