-- ===== src/Fs/ReadWrite/Physical.antt =====
-- Where the blocks of a file are (`testfs_read_block` of fs/read_write.c), by an independent map:
-- the physical block of each logical one, as a function of the inode and the device's bytes.
use ece344_os.Prelude.{
  ℕ, ◌+◌, ◌-◌, ◌/◌, ◌%◌, ◌^◌, ◌≤◌, ◌<◌, ◌≡◌, inl, inr, Option, some, Bool-cases, arith, ltb,
  if◌then◌else◌, ◌>>=◌,
}
use ece344_os.Fs.Errno.{num}
use ece344_os.Fs.Layout.{
  Buffer, block_size, nr_direct_blocks, nr_indirect_blocks, zeros, get_int, positive,
}
use ece344_os.Fs.State.{Dinode, Inode, Testfs, M}
use ece344_os.Fs.Block.{read_blocks-eq}
use ece344_os.Fs.ReadWrite.{entry, physical_block, read_block, max_block_nr}

-- The entry `i` of the table in block `table`, with no entries in the table 0.
unfoldable pub entry_of : (ℕ → Buffer) → ℕ → ℕ → ℕ
entry_of c table i = if positive table then get_int (c table) i else 0

-- The physical block of the logical block `n`, and 0 for a hole.
unfoldable pub block_of : (ℕ → Buffer) → Dinode → ℕ → ℕ
block_of c d n =
    if ltb n nr_direct_blocks
    then d.i_block_nr n
    else if ltb n (nr_direct_blocks + nr_indirect_blocks)
    then entry_of c d.i_indirect (n - 10)
    else entry_of c (entry_of c d.i_dindirect ((n - 2058) / 2048)) ((n - 2058) % 2048)

-- The bytes of a block, where a hole is zeros.
unfoldable pub bytes_of : (ℕ → Buffer) → ℕ → Buffer
bytes_of c b = if positive b then (λ k. c (b + k / block_size) (k % block_size)) else zeros

-- Every block that the inode refers to, tables included, lies on the device.
pub record IsOnDevice (s : Testfs) (d : Dinode) : Type 0 where
  pub small : s.dev.size ≤ 2 ^ 31
  pub indirect : d.i_indirect < s.dev.size
  pub dindirect : d.i_dindirect < s.dev.size
  pub tables : (k : ℕ) → k < 2048 → entry_of s.dev.content d.i_dindirect k < s.dev.size
  pub blocks : (n : ℕ) → n < max_block_nr → block_of s.dev.content d n < s.dev.size

get_int_read :
    (c : ℕ → Buffer) (t i : ℕ)
    → i < 2048
    → get_int (λ k. c (t + k / block_size) (k % block_size)) i ≡ get_int (c t) i
unfolding get_int
get_int_read c t i h = ground arith

data Finds (s : Testfs) (x : ℕ) (r : Option ((ℕ × Buffer) × Testfs)) : Type 0 where
  finds : (b : Buffer) → r ≡ some ((x, b), s) → Finds s x r

entry-Finds :
    (s : Testfs) (t i : ℕ) (block : Buffer)
    → s.dev.size ≤ 2 ^ 31
    → t < s.dev.size
    → i < 2048
    → Finds s (entry_of s.dev.content t i) (entry t i block s)
unfolding entry_of
entry-Finds s t i block hs ht hi = elim (Bool-cases (positive t)) [
  | inl e ↦
      finds (λ k. s.dev.content (t + k / block_size) (k % block_size))
        (ground (arith, e, read_blocks-eq t 1 s (omega arith), get_int_read s.dev.content t i hi))
  | inr e ↦ finds block (ground (arith, e))
]

abbrev through : Dinode → ℕ → Buffer → M (ℕ × Buffer)
through d n block = do
  (indir_block_nr, b) ← entry d.i_dindirect (n / 2048) block
  entry indir_block_nr (n % 2048) b

dindirect-Finds :
    (s : Testfs) (d : Dinode) (n : ℕ) (block : Buffer)
    → IsOnDevice s d
    → n < 2 ^ 22
    → Finds s
        (entry_of s.dev.content (entry_of s.dev.content d.i_dindirect (n / 2048)) (n % 2048))
        (through d n block s)
dindirect-Finds s d n block v h =
    elim (entry-Finds s d.i_dindirect (n / 2048) block v.small v.dindirect (omega arith)) [
      | finds b e ↦
          elim (entry-Finds s (entry_of s.dev.content d.i_dindirect (n / 2048)) (n % 2048) b v.small
            (v.tables (n / 2048) (omega arith)) (omega arith)) [
              | finds b' e' ↦ finds b' (ground (arith, e, e'))
            ]
    ]

physical_block-Finds :
    (s : Testfs) (d : Dinode) (n : ℕ) (block : Buffer)
    → IsOnDevice s d
    → n < max_block_nr
    → Finds s (block_of s.dev.content d n) (physical_block d n block s)
unfolding block_of physical_block
physical_block-Finds s d n block v h = elim (Bool-cases (ltb n nr_direct_blocks)) [
  | inl e ↦ finds block (ground (arith, e))
  | inr e ↦ elim (Bool-cases (ltb (n - nr_direct_blocks) nr_indirect_blocks)) [
    | inl f ↦
        elim (entry-Finds s d.i_indirect (n - 10) block v.small v.indirect (ground (arith, f))) [
          | finds b g ↦ finds b (ground (arith, e, f, g))
        ]
    | inr f ↦ elim (dindirect-Finds s d (n - 2058) block v (omega arith)) [
      | finds b g ↦ finds b (ground (arith, e, f, g))
    ]
  ]
]

-- Where the file's blocks lie on the device, `testfs_read_block` of a block in range changes
-- nothing and returns the physical block that the inode's direct, indirect or double indirect
-- entries give, 0 for a hole, with the bytes of that block, or zeros.
pub read_block-eq :
    (s : Testfs) (p n : ℕ) (i : Inode) (block : Buffer)
    → s.inodes p ≡ some i
    → IsOnDevice s i.din
    → n < max_block_nr
    → read_block p n block s
      ≡ some (
        (
          num (block_of s.dev.content i.din n),
          bytes_of s.dev.content (block_of s.dev.content i.din n),
        ),
        s,
      )
unfolding read_block bytes_of
read_block-eq s p n i block hi v h = elim (physical_block-Finds s i.din n block v h) [
  | finds b e ↦ elim (Bool-cases (positive (block_of s.dev.content i.din n))) [
    | inl f ↦ ground (
      arith,
      hi,
      e,
      f,
      h,
      read_blocks-eq (block_of s.dev.content i.din n) 1 s (let g = v.blocks n h in omega arith),
    )
    | inr f ↦ ground (arith, hi, e, f, h, v.blocks n h, v.small)
  ]
]
