-- ===== src/Fs/ReadWrite/Kept.antt =====
-- What writing a data block of a file does to the map of the file's blocks (fs/read_write.c).
use ece344_os.Prelude.{
  ℕ, ◌+◌, ◌-◌, ◌*◌, ◌/◌, ◌%◌, ◌<◌, ◌≡◌, ◌≢◌, sym, inl, inr, ltb, arith, Bool-cases,
}
use ece344_os.Fs.Layout.{
  Buffer, block_size, nr_direct_blocks, nr_indirect_blocks, get_int, positive,
}
use ece344_os.Fs.State.{Dinode, Device, Testfs}
use ece344_os.Fs.Block.{write_device}
use ece344_os.Fs.ReadWrite.{max_block_nr}
use ece344_os.Fs.ReadWrite.Physical.{entry_of, block_of, bytes_of, IsOnDevice}
use ece344_os.Fs.ReadWrite.Read.{file_byte}

-- No block of data is shared by two logical blocks or serves as a table too.
pub record IsSeparate (c : ℕ → Buffer) (d : Dinode) : Type 0 where
  pub distinct :
      (n m : ℕ)
      → n < max_block_nr
      → m < max_block_nr
      → 0 < block_of c d n
      → block_of c d n ≡ block_of c d m
      → n ≡ m
  pub indirect : (n : ℕ) → n < max_block_nr → 0 < block_of c d n → block_of c d n ≢ d.i_indirect
  pub dindirect : (n : ℕ) → n < max_block_nr → 0 < block_of c d n → block_of c d n ≢ d.i_dindirect
  pub tables :
      (n k : ℕ)
      → n < max_block_nr
      → k < 2048
      → 0 < block_of c d n
      → block_of c d n ≢ entry_of c d.i_dindirect k

pub entry_of-agree :
    (c c' : ℕ → Buffer) (t i : ℕ) → ((k : ℕ) → c' t k ≡ c t k) → entry_of c' t i ≡ entry_of c t i
unfolding entry_of get_int
entry_of-agree c c' t i h = ground (arith, h (4 * i), h (4 * i + 1), h (4 * i + 2), h (4 * i + 3))

block_of-agree :
    (c c' : ℕ → Buffer) (d : Dinode) (n : ℕ)
    → n < max_block_nr
    → ((k : ℕ) → c' d.i_indirect k ≡ c d.i_indirect k)
    → ((k : ℕ) → c' d.i_dindirect k ≡ c d.i_dindirect k)
    → ((t k : ℕ) → t < 2048 → c' (entry_of c d.i_dindirect t) k ≡ c (entry_of c d.i_dindirect t) k)
    → block_of c' d n ≡ block_of c d n
unfolding block_of
block_of-agree c c' d n h hi hd ht =
    let e₁ = entry_of-agree c c' d.i_indirect (n - 10) hi in
    let e₂ = entry_of-agree c c' d.i_dindirect ((n - 2058) / 2048) hd in
    elim (Bool-cases (ltb n nr_direct_blocks)) [
      | inl b ↦ ground (arith, b)
      | inr b ↦ elim (Bool-cases (ltb n (nr_direct_blocks + nr_indirect_blocks))) [
        | inl b' ↦ ground (arith, b, b', e₁)
        | inr b' ↦
            let e₃ =
              entry_of-agree c c' (entry_of c d.i_dindirect ((n - 2058) / 2048)) ((n - 2058) % 2048)
                (λ k. ht ((n - 2058) / 2048) k (omega arith)) in
            ground (arith, b, b', e₂, e₃)
      ]
    ]

-- The device after one block has been written.
abbrev pub with_block : Device → Buffer → ℕ → Device
with_block dev b ph = write_device dev b ph 1

pub with_block_other :
    (dev : Device) (b : Buffer) (ph x k : ℕ)
    → x ≢ ph
    → (with_block dev b ph).content x k ≡ dev.content x k
unfolding write_device
with_block_other dev b ph x k h = ground arith

pub with_block_self :
    (dev : Device) (b : Buffer) (ph k : ℕ) → (with_block dev b ph).content ph k ≡ b k
unfolding write_device
with_block_self dev b ph k =
    let e : (ph - ph) * block_size + k ≡ k = omega arith in ground (arith, e)

pub with_block-size :
    (dev : Device) (b : Buffer) (ph : ℕ) → ph < dev.size → (with_block dev b ph).size ≡ dev.size
unfolding write_device
with_block-size dev b ph h = ground arith

-- A data block `n` of a file is written.
module _ (s : Testfs) (d : Dinode) (n : ℕ) (b : Buffer) (v : IsOnDevice s d)
    (w : IsSeparate s.dev.content d) (hn : n < max_block_nr)
    (pos : 0 < block_of s.dev.content d n) where
  abbrev ph : ℕ
  ph = block_of s.dev.content d n

  abbrev pub after : Device
  after = with_block s.dev b ph

  pub after-block_of :
      (m : ℕ) → m < max_block_nr → block_of after.content d m ≡ block_of s.dev.content d m
  after-block_of m hm =
      block_of-agree s.dev.content after.content d m hm
        (λ k. with_block_other s.dev b ph d.i_indirect k (λ e. w.indirect n hn pos (sym e)))
        (λ k. with_block_other s.dev b ph d.i_dindirect k (λ e. w.dindirect n hn pos (sym e)))
        (λ t k ht.
          with_block_other s.dev b ph (entry_of s.dev.content d.i_dindirect t) k
            (λ e. w.tables n t hn ht pos (sym e)))

  after-entry_of :
      (k : ℕ) → entry_of after.content d.i_dindirect k ≡ entry_of s.dev.content d.i_dindirect k
  after-entry_of k =
      entry_of-agree s.dev.content after.content d.i_dindirect k
        (λ j. with_block_other s.dev b ph d.i_dindirect j (λ e. w.dindirect n hn pos (sym e)))

  pub after-size : after.size ≡ s.dev.size
  after-size = with_block-size s.dev b ph (v.blocks n hn)

  pub after-IsOnDevice : IsOnDevice (record s { dev = after }) d
  after-IsOnDevice = record {
    small = omega (arith, after-size, v.small);
    indirect = omega (arith, after-size, v.indirect);
    dindirect = omega (arith, after-size, v.dindirect);
    tables = λ k h. omega (arith, after-size, v.tables k h, after-entry_of k);
    blocks = λ m h. omega (arith, after-size, v.blocks m h, after-block_of m h);
  }

  pub after-IsSeparate : IsSeparate after.content d
  after-IsSeparate = record {
    distinct = λ m j hm hj p e.
        w.distinct m j hm hj (omega (arith, after-block_of m hm))
          (omega (arith, after-block_of m hm, after-block_of j hj));
    indirect = λ m hm p e.
        w.indirect m hm (omega (arith, after-block_of m hm)) (omega (arith, after-block_of m hm));
    dindirect = λ m hm p e.
        w.dindirect m hm (omega (arith, after-block_of m hm)) (omega (arith, after-block_of m hm));
    tables = λ m k hm hk p e.
        w.tables m k hm hk (omega (arith, after-block_of m hm))
          (omega (arith, after-block_of m hm, after-entry_of k));
  }

  -- The bytes of the file: those of the block are the new ones, and no others change.
  pub after-inside : (o : ℕ) → o / block_size ≡ n → file_byte after.content d o ≡ b (o % block_size)
  unfolding file_byte bytes_of
  after-inside o h =
      let z : ph + o % block_size / block_size ≡ ph = omega arith in
      let y : o % block_size % block_size ≡ o % block_size = omega arith in
      let e = after-block_of n hn in
      let small = v.blocks n hn in
      let small' = v.small in
      rw h (rw e (ground (arith, z, y, with_block_self s.dev b ph (o % block_size))))

  pub after-outside :
      (o : ℕ)
      → o < max_block_nr * block_size
      → o / block_size ≢ n
      → file_byte after.content d o ≡ file_byte s.dev.content d o
  unfolding file_byte bytes_of
  after-outside o lt ne =
      let m = o / block_size in
      let hm : m < max_block_nr = omega arith in
      let q = block_of s.dev.content d m in
      let z : q + o % block_size / block_size ≡ q = omega arith in
      let e = after-block_of m hm in
      rw e (elim (Bool-cases (positive q)) [
        | inl f ↦
            let different : q ≢ ph = λ same. ne (w.distinct m n hm hn (ground (arith, f)) same) in
            ground
              (arith, f, z, with_block_other s.dev b ph q (o % block_size % block_size) different)
        | inr f ↦ ground (arith, f)
      ])
