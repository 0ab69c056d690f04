-- ===== src/Fs/Layout.antt =====
-- The sizes of fs/testfs.h and fs/inode.h, and the bytes of a buffer read as little-endian numbers.
-- A buffer is a function from the byte's index. An `s32` is its bit pattern, below 2 ^ 32.
use ece344_os.Prelude.{ℕ, ◌+◌, ◌-◌, ◌*◌, ◌/◌, ◌%◌, ◌^◌, Bool, ◌&&◌, ltb, leb, ◌==◌, if◌then◌else◌}
use ece344_os.Fs.Errno.{Ret, num, err}

abbrev pub block_size : ℕ
block_size = 8192

abbrev pub super_block_size : ℕ
super_block_size = 1

abbrev pub inode_freemap_size : ℕ
inode_freemap_size = 1

abbrev pub block_freemap_size : ℕ
block_freemap_size = 16

abbrev pub nr_inode_blocks : ℕ
nr_inode_blocks = 128

abbrev pub nr_direct_blocks : ℕ
nr_direct_blocks = 10

-- BLOCK_SIZE / sizeof(int)
abbrev pub nr_indirect_blocks : ℕ
nr_indirect_blocks = 2048

-- sizeof(struct dinode), and BLOCK_SIZE over it
abbrev pub dinode_size : ℕ
dinode_size = 64

abbrev pub inodes_per_block : ℕ
inodes_per_block = 128

-- sizeof(struct dsuper_block)
abbrev pub dsuper_size : ℕ
dsuper_size = 32

abbrev pub Buffer : Type 0
Buffer = ℕ → ℕ

abbrev pub zeros : Buffer
zeros k = 0

-- `memcpy(dst + at, src + src_at, n)`
abbrev pub memcpy : Buffer → ℕ → Buffer → ℕ → ℕ → Buffer
memcpy dst at src src_at n k = if leb at k && ltb k (at + n) then src (k - at + src_at) else dst k

-- `((int *) b)[i]`
unfoldable pub get_int : Buffer → ℕ → ℕ
get_int b i = b (4 * i) + 2 ^ 8 * b (4 * i + 1) + 2 ^ 16 * b (4 * i + 2) + 2 ^ 24 * b (4 * i + 3)

-- The byte `k` of a number.
abbrev pub byte_of : ℕ → ℕ → ℕ
byte_of n k = n / 2 ^ (8 * k) % 256

-- `((int *) b)[i] = n`
unfoldable pub set_int : Buffer → ℕ → ℕ → Buffer
set_int b i n k = if k / 4 == i then byte_of n (k % 4) else b k

-- `x > 0` and the value of an `int`, by its bit pattern.
abbrev pub positive : ℕ → Bool
positive x = ltb 0 x && ltb x (2 ^ 31)

abbrev pub to_ret : ℕ → Ret
to_ret x = if ltb x (2 ^ 31) then num x else err (2 ^ 32 - x)
