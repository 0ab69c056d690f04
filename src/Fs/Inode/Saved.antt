-- ===== src/Fs/Inode/Saved.antt =====
-- Writing an inode to the device and reading it again (`testfs_sync_inode` and `testfs_get_inode` of
-- fs/inode.c).
use ece344_os.Prelude.{
  ℕ, ◌+◌, ◌-◌, ◌*◌, ◌/◌, ◌%◌, ◌^◌, ◌≤◌, ◌<◌, ◌≡◌, ◌≢◌, refl, true, false, some, ◌==◌, arith, upd,
  ◌∷◌, inl, inr, Bool-cases,
}
use ece344_os.Fs.Layout.{Buffer, zeros, memcpy, dinode_size}
use ece344_os.Fs.Words.{get_int-words}
use ece344_os.Fs.State.{Dinode, Inode, Testfs}
use ece344_os.Fs.Block.{write_device, write_blocks, read_blocks-eq}
use ece344_os.Fs.Inode.{
  dinode_word, dinode_bytes, dinode_of_bytes, inode_to_block_nr, inode_to_block_offset, sync_inode,
  load_inode, read_inode_block, write_inode_block, inode_hash_insert, inode_hashfn, zero_dinode,
}

-- The fields of a dinode fit their C types.
pub record InRange (d : Dinode) : Type 0 where
  pub i_type : d.i_type < 2 ^ 32
  pub direct : (k : ℕ) → k < 10 → d.i_block_nr k < 2 ^ 32
  pub indirect : d.i_indirect < 2 ^ 32
  pub dindirect : d.i_dindirect < 2 ^ 32
  pub count : d.block_count < 2 ^ 32
  pub i_size : d.i_size < 2 ^ 64

-- The same dinode, whose table of direct blocks has ten entries.
pub record IsSame (d e : Dinode) : Type 0 where
  pub i_type : d.i_type ≡ e.i_type
  pub direct : (k : ℕ) → k < 10 → d.i_block_nr k ≡ e.i_block_nr k
  pub indirect : d.i_indirect ≡ e.i_indirect
  pub dindirect : d.i_dindirect ≡ e.i_dindirect
  pub count : d.block_count ≡ e.block_count
  pub i_size : d.i_size ≡ e.i_size

word-lt : (d : Dinode) (i : ℕ) → InRange d → i < 16 → dinode_word d i < 2 ^ 32
word-lt d i r h =
    ground (arith, r.i_type, r.direct (i - 1), r.indirect, r.dindirect, r.count, r.i_size)

dinode_of_bytes-IsSame :
    (d : Dinode) (b : Buffer)
    → InRange d
    → ((k : ℕ) → k < 64 → b k ≡ dinode_bytes d k)
    → IsSame (dinode_of_bytes b) d
unfolding dinode_of_bytes dinode_bytes
dinode_of_bytes-IsSame d b r h =
    let word = λ (i : ℕ) (hi : i < 16).
      get_int-words (dinode_word d) b i (word-lt d i r hi) (λ k small. h k (omega arith)) in
    record {
      i_type = ground (arith, word 0 (omega arith));
      direct = λ k hk. ground (arith, word (k + 1) (omega arith), hk);
      indirect = ground (arith, word 11 (omega arith));
      dindirect = ground (arith, word 12 (omega arith));
      count = ground (arith, word 13 (omega arith));
      i_size = ground (arith, word 14 (omega arith), word 15 (omega arith));
    }

-- The byte `k` of the inode `nr` on the device.
unfoldable pub inode_byte : Testfs → ℕ → ℕ → ℕ
inode_byte s nr k = s.dev.content (s.sb.inode_blocks_start + nr / 128) (nr % 128 * 64 + k)

abbrev block_at : Testfs → ℕ → Buffer
block_at s b k = s.dev.content (b + k / 8192) (k % 8192)

-- The state after the inode at `p` has been written.
abbrev synced : Testfs → ℕ → Inode → Testfs
synced s p i =
    let b = s.sb.inode_blocks_start + i.i_nr / 128 in
    record s {
      dev =
          write_device s.dev
            (memcpy (block_at s b) (i.i_nr % 128 * 64) (dinode_bytes i.din) 0 dinode_size) b 1;
      inodes = upd s.inodes p (some (record i { dirty = false }));
    }

inode_to_block_nr-eq :
    (i : Inode) (s : Testfs) → i.i_nr < 2 ^ 14 → inode_to_block_nr i s ≡ some (i.i_nr / 128, s)
unfolding inode_to_block_nr
inode_to_block_nr-eq i s h = ground arith

read_inode_block-eq :
    (i : Inode) (s : Testfs)
    → i.i_nr < 2 ^ 14
    → s.sb.inode_blocks_start + 128 ≤ s.dev.size
    → read_inode_block i s ≡ some (block_at s (s.sb.inode_blocks_start + i.i_nr / 128), s)
unfolding read_inode_block
read_inode_block-eq i s h room = ground (
  arith,
  inode_to_block_nr-eq i s h,
  read_blocks-eq (s.sb.inode_blocks_start + i.i_nr / 128) 1 s (omega arith),
)

sync_inode-eq :
    (s : Testfs) (p : ℕ) (i : Inode)
    → s.inodes p ≡ some i
    → i.dirty ≡ true
    → i.i_nr < 2 ^ 14
    → s.sb.inode_blocks_start + 128 ≤ s.dev.size
    → sync_inode p s ≡ some (tt, synced s p i)
unfolding sync_inode write_inode_block write_blocks inode_to_block_offset
sync_inode-eq s p i e d h room =
    ground (arith, e, d, read_inode_block-eq i s h room, inode_to_block_nr-eq i s h)

synced-bytes :
    (s : Testfs) (p k : ℕ) (i : Inode)
    → k < 64
    → inode_byte (synced s p i) i.i_nr k ≡ dinode_bytes i.din k
unfolding inode_byte write_device
synced-bytes s p k i h =
    let e : 0 * 8192 + (i.i_nr % 128 * 64 + k) - i.i_nr % 128 * 64 + 0 ≡ k = omega arith in
    ground (arith, e)

synced-others :
    (s : Testfs) (p k n : ℕ) (i : Inode)
    → k < 64
    → n ≢ i.i_nr
    → inode_byte (synced s p i) n k ≡ inode_byte s n k
unfolding inode_byte write_device
synced-others s p k n i h ne = elim (Bool-cases (n / 128 == i.i_nr / 128)) [
  | inl e ↦
      let f : (0 * 8192 + (n % 128 * 64 + k)) / 8192 ≡ 0 = omega arith in
      let g : (0 * 8192 + (n % 128 * 64 + k)) % 8192 ≡ n % 128 * 64 + k = omega arith in
      ground (arith, e, f, g)
  | inr e ↦ ground (arith, e)
]

-- An inode read from the device, at its address, with the bytes that are there.
abbrev pub read_from : Testfs → ℕ → Inode
read_from s nr = record {
  din = dinode_of_bytes (
      memcpy zeros 0 (block_at s (s.sb.inode_blocks_start + nr / 128)) (nr % 128 * 64) dinode_size);
  dirty = false;
  i_nr = nr;
  i_count = 1;
}

abbrev pub fresh : Testfs → Inode → Testfs
fresh s i = record s { inodes = upd s.inodes s.next (some i); next = s.next + 1 }

abbrev pub loaded : Testfs → ℕ → Testfs
loaded s nr =
    let s' = fresh s (record { din = zero_dinode; dirty = false; i_nr = nr; i_count = 1 }) in
    record s' {
      inodes = upd s'.inodes s.next (some (read_from s nr));
      table = upd s.table (inode_hashfn nr) (s.next ∷ s.table (inode_hashfn nr));
    }

pub load_inode-eq :
    (nr : ℕ) (s : Testfs)
    → nr < 2 ^ 14
    → s.sb.inode_blocks_start + 128 ≤ s.dev.size
    → load_inode nr s ≡ some (s.next, loaded s nr)
unfolding load_inode inode_hash_insert inode_to_block_offset
load_inode-eq nr s h room =
    let i : Inode = record { din = zero_dinode; dirty = false; i_nr = nr; i_count = 1 } in
    ground (arith, read_inode_block-eq i (fresh s i) h room)

read_from-IsSame :
    (s : Testfs) (nr : ℕ) (d : Dinode)
    → InRange d
    → ((k : ℕ) → k < 64 → inode_byte s nr k ≡ dinode_bytes d k)
    → IsSame (read_from s nr).din d
unfolding inode_byte
read_from-IsSame s nr d r h = dinode_of_bytes-IsSame d _ r (λ k hk.
    let e : (k - 0 + nr % 128 * 64) / 8192 ≡ 0 = omega arith in
    let f : (k - 0 + nr % 128 * 64) % 8192 ≡ nr % 128 * 64 + k = omega arith in
    ground (arith, h k hk, e, f))

synced-room :
    (s : Testfs) (p : ℕ) (i : Inode)
    → s.sb.inode_blocks_start + 128 ≤ s.dev.size
    → (synced s p i).sb.inode_blocks_start + 128 ≤ (synced s p i).dev.size
unfolding write_device
synced-room s p i h = ground arith

-- Where the blocks of inodes lie on the device, a dirty inode of a number below 2 ^ 14, with fields
-- that fit their C types, is written by `testfs_sync_inode` without a failed assert, and is clean
-- then. An inode of its number that `testfs_get_inode` loads from that device has the same dinode;
-- the bytes of every other inode on the device are as they were.
pub load_inode-sync :
    (s : Testfs) (p : ℕ) (i : Inode)
    → s.inodes p ≡ some i
    → i.dirty ≡ true
    → i.i_nr < 2 ^ 14
    → s.sb.inode_blocks_start + 128 ≤ s.dev.size
    → InRange i.din
    → (t u : Testfs) × (j : Inode) × (sync_inode p s ≡ some (tt, t))
      × (t.inodes p ≡ some (record i { dirty = false }))
      × (load_inode i.i_nr t ≡ some (t.next, u))
      × (u.inodes t.next ≡ some j)
      × (j.i_nr ≡ i.i_nr)
      × IsSame j.din i.din
      × ((n k : ℕ) → k < 64 → n ≢ i.i_nr → inode_byte t n k ≡ inode_byte s n k)
load_inode-sync s p i e d h room r =
    let t = synced s p i in
    (
      t,
      loaded t i.i_nr,
      read_from t i.i_nr,
      sync_inode-eq s p i e d h room,
      ground arith,
      load_inode-eq i.i_nr t h (synced-room s p i room),
      ground arith,
      refl,
      read_from-IsSame t i.i_nr i.din r (λ k hk. synced-bytes s p k i hk),
      λ n k hk ne. synced-others s p k n i hk ne,
    )
