-- ===== src/Fs/Tests/Maps.antt =====
-- The theorems on fs/bitmap.c and fs/block.c at concrete values.
use ece344lab.Common.{
  ◌*◌, ◌≤◌, ◌≡◌, refl, inl, ◌⊎◌, ◌↔◌, true, false, arith, all_below, all_below_sound, ltb, ◌||◌,
  not,
}
use ece344lab.Common.Memory.{update, copy}
use ece344lab.Common.Int.{pos}
use ece344lab.Common.Action.{ok, abort, ◌>>◌}
use ece344lab.Fs.Layout.{block_size}
use ece344lab.Fs.Bitmap.{
  Bitmap, bitmap_create, alloc_from, find_offset, bitmap_alloc, bitmap_mark, bitmap_unmark,
  bitmap_isset,
}
use ece344lab.Fs.Bitmap.Bits.{IsValid, is_free}
use ece344lab.Fs.Bitmap.Alloc.{Allocates, bitmap_alloc-Allocates}
use ece344lab.Fs.Bitmap.Marks.{
  Creates, bitmap_create-Creates, Sets, bitmap_mark-Sets, bitmap_unmark-Sets, mark-abort_iff,
}
use ece344lab.Fs.Bitmap.Count.{Counts, nr_allocated-alloc, CountsDown, nr_allocated-unmark}
use ece344lab.Fs.Block.{Disk, bytes_from, write_blocks, read_blocks}
use ece344lab.Fs.Block.Laws.{written, read-write, read-write_apart}

-- The bitmap of 12 bits in which 0, 1 and 9 are taken.
abbrev twelve : Bitmap
twelve = record { nbits = 12; v = update (update (λ i. 0) 0 3) 1 0xf2 }

over_table : all_below 16 (λ j. ltb j 12 || not (is_free twelve j)) ≡ true
unfolding all_below bitmap_isset
over_table = refl

twelve-IsValid : IsValid twelve
twelve-IsValid = record {
  byte = λ i. ground arith;
  small = omega arith;
  over = λ j lo hi.
      ground (arith, all_below_sound 16 (λ j. ltb j 12 || not (is_free twelve j)) j over_table hi);
}

-- Bit 2 is taken next.
abbrev after : Bitmap
after = record { nbits = 12; v = update (update (update (λ i. 0) 0 3) 1 0xf2) 0 7 }

runs : bitmap_alloc twelve ≡ ok 2 after
unfolding bitmap_alloc alloc_from find_offset
runs = refl

bitmap_alloc-Allocates_example : Allocates twelve (ok 2 after)
unfolding bitmap_alloc alloc_from find_offset
bitmap_alloc-Allocates_example = bitmap_alloc-Allocates twelve twelve-IsValid

created_nine : Creates 12 (bitmap_create true true 12 tt)
created_nine = bitmap_create-Creates 12 (omega arith)

held : is_free twelve 9 ≡ false
unfolding bitmap_isset
held = refl

clear : is_free twelve 3 ≡ true
unfolding bitmap_isset
clear = refl

three_marked : Sets 3 false twelve (bitmap_mark 3 twelve)
three_marked = bitmap_mark-Sets twelve-IsValid 3 (omega arith) clear

unmark_twelve : Sets 9 true twelve (bitmap_unmark 9 twelve)
unmark_twelve = bitmap_unmark-Sets twelve-IsValid 9 (omega arith) held

abort_twelve :
    ((bitmap_mark 9 twelve ≡ abort) ↔ ((12 ≤ 9) ⊎ (is_free twelve 9 ≡ false)))
    × ((bitmap_unmark 9 twelve ≡ abort) ↔ ((12 ≤ 9) ⊎ (is_free twelve 9 ≡ true)))
abort_twelve = mark-abort_iff twelve 9

count_twelve : Counts twelve (bitmap_alloc twelve)
count_twelve = nr_allocated-alloc twelve twelve-IsValid

one_less : CountsDown twelve (bitmap_unmark 9 twelve)
one_less = nr_allocated-unmark twelve-IsValid 9 (omega arith) held

abbrev small_disk : Disk
small_disk = record { size = 4; data_at = λ i j. i }

disk_written :
    (write_blocks (λ j. 5) (pos 2) 3 >> read_blocks (λ j. 0) (pos 2) 3) small_disk
    ≡ ok (copy (λ j. 0) 0 (λ j. 5) 0 (3 * block_size)) (written (λ j. 5) 2 3 small_disk)
disk_written = read-write (λ j. 5) (λ j. 0) 2 3 small_disk

read_apart :
    (write_blocks (λ j. 5) (pos 2) 3 >> read_blocks (λ j. 0) (pos 0) 2) small_disk
    ≡ ok
        (copy (λ j. 0) 0 (bytes_from small_disk 0) 0 (2 * block_size))
        (written (λ j. 5) 2 3 small_disk)
read_apart = read-write_apart (λ j. 5) (λ j. 0) 2 3 0 2 small_disk (inl (omega arith)) (omega arith)
