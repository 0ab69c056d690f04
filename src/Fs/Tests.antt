-- ===== src/Fs/Tests.antt =====
-- Tests of the file system's model, and its theorems at concrete inputs.
use ece344_os.Prelude.{
  ℕ, ◌+◌, ◌%◌, ◌^◌, ◌≡◌, refl, false, ◌||◌, ◌==◌, arith, none, some, [], if◌then◌else◌, ◌∙◌, sym,
}
use ece344_os.Fs.Errno.{num, err, enospc}
use ece344_os.Fs.Layout.{zeros}
use ece344_os.Fs.Bitmap
use ece344_os.Fs.Bitmap.{Bitmap, isset, mark, unmark, nr_allocated, divroundup, count_bits}
use ece344_os.Fs.Bitmap.Alloc.{
  IsValid, Allocates, alloc-Allocates, with_bit, isset-with_bit, with_bit-IsValid,
}
use ece344_os.Fs.Bitmap.Count.{nr_allocated-taken}
use ece344_os.Fs.Bitmap.Create.{IsFresh, create_lem, count_bits-none}
use ece344_os.Fs.Bitmap.Words.{bit-zero}
use ece344_os.Fs.Bitmap.Alloc.{isset-bit}
use ece344_os.Fs.State.{Dsuper, Testfs}
use ece344_os.Fs.Super.{dsuper_bytes, alloc_block, free_block}
use ece344_os.Fs.Super.Blocks.{IsLaid, BlocksValid}
use ece344_os.Fs.Super.Take.{Takes, alloc_block-Takes}
use ece344_os.Fs.Super.Free.{Freed, free_block-Freed}
use ece344_os.Fs.Super.Mount.{close_super_block, init_super_block, chains_empty}
use ece344_os.Fs.Super.Remount.{Kept, remount}

-- Sixteen bits, of which the bit 0 is set.
abbrev sixteen : Bitmap
sixteen = record { nbits = 16; v = λ ix. if ix == 0 then 1 else 0 }

sixteen-IsValid : IsValid sixteen
unfolding divroundup
sixteen-IsValid = record {
  bytes = λ ix. ground arith;
  small = omega arith;
  over = λ i lo hi. absurd (omega arith);
}

alloc_no_bit :
    Bitmap.alloc (record { nbits = 2; v = λ _. 255 })
    ≡ some (err enospc, record { nbits = 2; v = λ _. 255 })
unfolding Bitmap.alloc Bitmap.alloc_from divroundup
alloc_no_bit = refl

alloc-Allocates_example : Allocates sixteen (Bitmap.alloc sixteen)
alloc-Allocates_example = alloc-Allocates sixteen sixteen-IsValid

create_lem_example : (b : Bitmap) × (Bitmap.create 20 ≡ some b) × IsFresh 20 b
create_lem_example = create_lem 20 (omega arith)

-- A file system of 1000 blocks with no block in use.
abbrev small_super : Dsuper
small_super = record {
  inode_freemap_start = 1;
  block_freemap_start = 2;
  inode_blocks_start = 18;
  data_blocks_start = 146;
  used_inode_count = 0;
  used_block_count = 0;
  max_fs_blocks = 1000;
}

abbrev small_fs : Testfs
small_fs = record {
  sb = small_super;
  dev = record { content = λ b. if b == 0 then dsuper_bytes small_super else zeros; size = 146 };
  inode_freemap = record { nbits = 2 ^ 16; v = zeros };
  block_freemap = record { nbits = 2 ^ 20; v = zeros };
  inodes = λ _. none;
  next = 1;
  table = λ _. [];
}

small-IsLaid : IsLaid small_super
small-IsLaid = record { inode_map = refl; block_map = refl; inodes = refl; blocks = refl }

clear_bits : (j : ℕ) → isset small_fs.block_freemap j ≡ false
clear_bits j = ground (arith, isset-bit small_fs.block_freemap j, bit-zero (j % 8) (omega arith))

none_counted : nr_allocated small_fs.block_freemap ≡ 0
unfolding nr_allocated
none_counted = count_bits-none small_fs.block_freemap _ (λ i h. clear_bits i)

small-BlocksValid : BlocksValid small_fs
small-BlocksValid = record {
  laid = small-IsLaid;
  map = record {
    bytes = λ ix. omega arith;
    small = omega arith;
    over = unfold divroundup in (λ i lo hi. absurd (omega arith));
  };
  nbits = refl;
  counted = omega (arith, none_counted);
  saved = λ k hk. ground arith;
  super_saved = λ k hk. refl;
}

alloc_block-Takes_example : Takes small_fs (alloc_block small_fs)
alloc_block-Takes_example = alloc_block-Takes small_fs small-BlocksValid

-- The same file system with one block in use.
abbrev busy_map : Bitmap
busy_map = with_bit small_fs.block_freemap 0

abbrev busy_super : Dsuper
busy_super = record small_super { used_block_count = 1 }

abbrev busy_fs : Testfs
busy_fs = record small_fs {
  sb = busy_super;
  block_freemap = busy_map;
  dev = record {
    content =
        λ b k. if b == 0 then dsuper_bytes busy_super k else if b == 2 then busy_map.v k else 0;
    size = 147;
  };
}

busy_bits : (j : ℕ) → isset busy_map j ≡ (j == 0 || isset small_fs.block_freemap j)
busy_bits j = isset-with_bit small_fs.block_freemap 0 j (omega arith)

one_counted : nr_allocated busy_map ≡ 1
one_counted =
    nr_allocated-taken small_fs.block_freemap busy_map 0 refl (omega arith) (clear_bits 0) busy_bits
    ∙ omega (arith, none_counted)

busy-BlocksValid : BlocksValid busy_fs
busy-BlocksValid = record {
  laid = record { inode_map = refl; block_map = refl; inodes = refl; blocks = refl };
  map = with_bit-IsValid small_fs.block_freemap 0 small-BlocksValid.map;
  nbits = refl;
  counted = sym one_counted;
  saved = λ k hk. ground arith;
  super_saved = λ k hk. refl;
}

free_block-Freed_example :
    (t : Testfs) × (free_block (146 + 0) busy_fs ≡ some (num 0, t)) × Freed busy_fs 0 t
free_block-Freed_example = free_block-Freed busy_fs 0 busy-BlocksValid (omega arith) (busy_bits 0)

remount_example :
    (u t : Testfs) × (close_super_block small_fs ≡ some (tt, u))
    × (init_super_block u.dev ≡ some (tt, t))
    × Kept small_fs t
unfolding chains_empty
remount_example = remount small_fs small-IsLaid (omega arith) refl
