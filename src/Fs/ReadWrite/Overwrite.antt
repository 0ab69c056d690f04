-- ===== src/Fs/ReadWrite/Overwrite.antt =====
-- `testfs_write_data` of fs/read_write.c where the blocks that it writes exist already.
use ece344_os.Prelude.{
  ℕ, zero, suc, ◌+◌, ◌-◌, ◌*◌, ◌/◌, ◌%◌, ◌^◌, ◌≤◌, ◌<◌, ◌≡◌, ◌≢◌, refl, ◌∙◌, inl, inr, Bool, true,
  false, ltb, ◌==◌, if◌then◌else◌, arith, Bool-cases, ◌⊎◌, Option, some, upd,
}
use ece344_os.Fs.Errno.{Ret, num}
use ece344_os.Fs.Layout.{Buffer, block_size, zeros, memcpy}
use ece344_os.Fs.State.{Dinode, Inode, Device, Testfs}
use ece344_os.Fs.Block.{write_blocks}
use ece344_os.Fs.ReadWrite.{
  max_block_nr, lt_off, allocate_block, write_loop, write_last, write_fuel, write_data,
}
use ece344_os.Fs.ReadWrite.Physical.{block_of, bytes_of, IsOnDevice, read_block-eq}
use ece344_os.Fs.ReadWrite.Read.{file_byte}
use ece344_os.Fs.ReadWrite.Kept.{
  IsSeparate, with_block, after-block_of, after-size, after-IsOnDevice, after-IsSeparate,
  after-inside, after-outside, with_block_other,
}

allocate_block-existing :
    (s : Testfs) (p n : ℕ) (i : Inode) (junk : Bool) (block : Buffer)
    → s.inodes p ≡ some i
    → IsOnDevice s i.din
    → n < max_block_nr
    → 0 < block_of s.dev.content i.din n
    → allocate_block junk p n block s
      ≡ some (
        (
          num (block_of s.dev.content i.din n),
          bytes_of s.dev.content (block_of s.dev.content i.din n),
        ),
        s,
      )
unfolding allocate_block
allocate_block-existing s p n i junk block hi v h pos =
    let r = read_block-eq s p n i block hi v h in
    let e : block_of s.dev.content i.din n ≡ suc (block_of s.dev.content i.din n - 1) =
      omega arith in
    ground (arith, r, e)

-- The dinode with the size that a write up to `end` leaves.
abbrev pub grown : Dinode → ℕ → Dinode
grown d end = record d { i_size = if ltb d.i_size end then end else d.i_size }

-- What a write does from the byte `from` of the file on, up to `end`, with the bytes of `buf` from the
-- place that stands for `start`: only the device and the inode change, and on the device only data
-- blocks of the file.
pub data Writes (s : Testfs) (p : ℕ) (i : Inode) (start from size : ℕ) (buf : Buffer)
    (r : Option (Ret × Testfs)) : Type 0 where
  writes :
      (dev : Device) (inodes : ℕ → Option Inode)
      → r ≡ some (num size, record s { dev = dev; inodes = inodes })
      → inodes p ≡ some (record i { din = grown i.din (start + size); dirty = true })
      → ((q : ℕ) → q ≢ p → inodes q ≡ s.inodes q)
      → dev.size ≡ s.dev.size
      → ((n : ℕ) → n < max_block_nr → block_of dev.content i.din n ≡ block_of s.dev.content i.din n)
      → ((o : ℕ) → from ≤ o → o < start + size → file_byte dev.content i.din o ≡ buf (o - start))
      → ((o : ℕ)
          → o < max_block_nr * block_size
          → o < from
          → file_byte dev.content i.din o ≡ file_byte s.dev.content i.din o)
      → ((o : ℕ)
          → o < max_block_nr * block_size
          → start + size ≤ o
          → file_byte dev.content i.din o ≡ file_byte s.dev.content i.din o)
      → ((b k : ℕ)
          → ((n : ℕ)
              → n < max_block_nr
              → 0 < block_of s.dev.content i.din n
              → b ≢ block_of s.dev.content i.din n)
          → dev.content b k ≡ s.dev.content b k)
      → Writes s p i start from size buf r

-- The inode is in memory, its blocks lie on the device and serve once each, and those of the bytes from
-- `start` on exist.
pub record IsReady (s : Testfs) (p : ℕ) (i : Inode) (start size : ℕ) : Type 0 where
  pub loaded : s.inodes p ≡ some i
  pub placed : IsOnDevice s i.din
  pub separate : IsSeparate s.dev.content i.din
  pub allocated :
      (n : ℕ)
      → start / block_size ≤ n
      → n ≤ (start + size - 1) / block_size
      → 0 < block_of s.dev.content i.din n

module _ (p : ℕ) (i : Inode) (start size : ℕ) (buf : Buffer) (small : size < 2 ^ 31)
    (inside : start + size ≤ max_block_nr * block_size) (some_bytes : 0 < size)
    (sized : i.din.i_size < 2 ^ 63) where
  -- The bytes of the block that the byte `from` stands in, with `len` of them written.
  abbrev patched : Testfs → ℕ → ℕ → Buffer
  patched s from len =
      memcpy (bytes_of s.dev.content (block_of s.dev.content i.din (from / block_size)))
        (from % block_size) buf (from - start) len

  abbrev stepped : Testfs → ℕ → ℕ → Testfs
  stepped s from len = record s {
    dev = with_block s.dev (patched s from len) (block_of s.dev.content i.din (from / block_size));
  }

  module _ (s : Testfs) (from len : ℕ) (r : IsReady s p i start size) (lo : start ≤ from)
      (le : from + len ≤ start + size) (fits : from % block_size + len ≤ block_size)
      (pos : 0 < len) where
    hn : from / block_size < max_block_nr
    hn = omega arith

    alive : 0 < block_of s.dev.content i.din (from / block_size)
    alive = r.allocated (from / block_size) (omega arith) (omega arith)

    stepped-block_of :
        (m : ℕ)
        → m < max_block_nr
        → block_of (stepped s from len).dev.content i.din m ≡ block_of s.dev.content i.din m
    stepped-block_of =
        after-block_of s i.din (from / block_size) (patched s from len) r.placed r.separate hn alive

    stepped-IsReady : IsReady (stepped s from len) p i start size
    stepped-IsReady = record {
      loaded = r.loaded;
      placed =
          after-IsOnDevice s i.din (from / block_size) (patched s from len) r.placed r.separate hn
            alive;
      separate =
          after-IsSeparate s i.din (from / block_size) (patched s from len) r.placed r.separate hn
            alive;
      allocated = λ n a b. omega (arith, r.allocated n a b, stepped-block_of n (omega arith));
    }

    -- The bytes of the file after a round.
    stepped-new :
        (o : ℕ)
        → from ≤ o
        → o < from + len
        → file_byte (stepped s from len).dev.content i.din o ≡ buf (o - start)
    stepped-new o a b =
        let e =
          after-inside s i.din (from / block_size) (patched s from len) r.placed r.separate hn alive
            o (omega arith) in
        let f : o % block_size - from % block_size + (from - start) ≡ o - start = omega arith in
        ground (arith, e, f)

    stepped-old :
        (o : ℕ)
        → o < max_block_nr * block_size
        → (o < from) ⊎ (from + len ≤ o)
        → file_byte (stepped s from len).dev.content i.din o ≡ file_byte s.dev.content i.din o
    unfolding file_byte
    stepped-old o lt out = elim (Bool-cases (o / block_size == from / block_size)) [
      | inl b ↦
          let same_block : o / block_size ≡ from / block_size = ground (arith, b) in
          let e =
            after-inside s i.din (from / block_size) (patched s from len) r.placed r.separate hn
              alive o same_block in
          let apart : (o % block_size < from % block_size)
              ⊎ (from % block_size + len ≤ o % block_size) =
            elim out [ inl a ↦ inl (omega arith) | inr a ↦ inr (omega arith) ] in
          elim apart [
            | inl a ↦ ground (arith, e, same_block, a)
            | inr a ↦ ground (arith, e, same_block, a)
          ]
      | inr b ↦
          after-outside s i.din (from / block_size) (patched s from len) r.placed r.separate hn
            alive o lt (ground (arith, b))
    ]

    stepped-other :
        (b k : ℕ)
        → ((n : ℕ)
            → n < max_block_nr
            → 0 < block_of s.dev.content i.din n
            → b ≢ block_of s.dev.content i.din n)
        → (stepped s from len).dev.content b k ≡ s.dev.content b k
    stepped-other b k h =
        with_block_other s.dev (patched s from len)
          (block_of s.dev.content i.din (from / block_size)) b k (h (from / block_size) hn alive)

    stepped-size : (stepped s from len).dev.size ≡ s.dev.size
    stepped-size =
        after-size s i.din (from / block_size) (patched s from len) r.placed r.separate hn alive

    -- A round, and then what the rest does.
    Writes-round :
        (x : Option (Ret × Testfs))
        → Writes (stepped s from len) p i start (from + len) size buf x
        → Writes s p i start from size buf x
    Writes-round x (writes dev inodes e here others sz blocks new before after rest) =
        writes dev inodes e here others (sz ∙ stepped-size)
          (λ n h. blocks n h ∙ stepped-block_of n h)
          (λ o a b. elim (Bool-cases (ltb o (from + len))) [
            | inl f ↦
                before o (omega arith) (ground (arith, f)) ∙ stepped-new o a (ground (arith, f))
            | inr f ↦ new o (ground (arith, f)) b
          ])
          (λ o a b. before o a (omega arith) ∙ stepped-old o a (inl b))
          (λ o a b. after o a b ∙ stepped-old o a (inr (omega arith)))
          (λ b k h.
            rest b k (λ n hn' q.
              rw (stepped-block_of n hn') (h n hn' (omega (arith, stepped-block_of n hn'))))
            ∙ stepped-other b k h)

  write_loop-round :
      (n : ℕ) (junk : ℕ → Bool) (s : Testfs) (total : ℕ)
      → IsReady s p i start size
      → block_size < (start + total) % block_size + (size - total)
      → total ≤ size
      → write_loop
          (suc n)
          junk
          p
          buf
          start
          size
          total
          ((start + total) / block_size)
          ((start + total) % block_size)
          s
        ≡ write_loop n junk p buf start size
            (total + (block_size - (start + total) % block_size))
            ((start + total) / block_size + 1)
            0
            (stepped s (start + total) (block_size - (start + total) % block_size))
  unfolding write_loop write_blocks
  write_loop-round n junk s total r more le =
      let from = start + total in
      let hn : from / block_size < max_block_nr = omega arith in
      let alive = r.allocated (from / block_size) (omega arith) (omega arith) in
      let rem : (size + 2 ^ 32 - total) % 2 ^ 32 ≡ size - total = omega arith in
      let next : (total + (block_size - from % block_size)) % 2 ^ 32
          ≡ total + (block_size - from % block_size) =
        omega arith in
      let at : from - start ≡ total = omega arith in
      let a =
        allocate_block-existing s p (from / block_size) i (junk (from / block_size)) zeros r.loaded
          r.placed hn alive in
      ground (arith, a, rem, next, at, more)

  write_last-eq :
      (junk : ℕ → Bool) (s : Testfs) (total : ℕ)
      → IsReady s p i start size
      → (start + total) % block_size + (size - total) ≤ block_size
      → total < size
      → Writes (stepped s (start + total) (size - total)) p i start (start + size) size buf (
          write_last junk p buf start size total
            ((start + total) / block_size)
            ((start + total) % block_size)
            s)
  unfolding write_last write_blocks
  write_last-eq junk s total r fits lt =
      let from = start + total in
      let hn : from / block_size < max_block_nr = omega arith in
      let alive = r.allocated (from / block_size) (omega arith) (omega arith) in
      let rem : (size + 2 ^ 32 - total) % 2 ^ 32 ≡ size - total = omega arith in
      let end : (start + size) % 2 ^ 64 ≡ start + size = omega arith in
      let at : from - start ≡ total = omega arith in
      let a =
        allocate_block-existing s p (from / block_size) i (junk (from / block_size)) zeros r.loaded
          r.placed hn alive in
      let loaded = r.loaded in
      writes (stepped s from (size - total)).dev
        (upd
          (upd s.inodes p (
            some (record i {
              din = record (i.din) {
                i_size = if lt_off i.din.i_size (start + size) then start + size else i.din.i_size;
              };
            })))
          p
          (some (record i {
            din = record (i.din) {
              i_size = if lt_off i.din.i_size (start + size) then start + size else i.din.i_size;
            };
            dirty = true;
          })))
        (ground (arith, a, rem, end, at, loaded)) (ground arith) (λ q ne. ground arith) refl
        (λ n h. refl) (λ o x y. absurd (omega arith)) (λ o x y. refl) (λ o x y. refl)
        (λ b k h. refl)

  write_loop-last :
      (n : ℕ) (junk : ℕ → Bool) (s : Testfs) (total : ℕ)
      → IsReady s p i start size
      → (start + total) % block_size + (size - total) ≤ block_size
      → total < size
      → Writes s p i start (start + total) size buf (
          write_loop
            (suc n)
            junk
            p
            buf
            start
            size
            total
            ((start + total) / block_size)
            ((start + total) % block_size)
            s)
  unfolding write_loop
  write_loop-last n junk s total r fits lt =
      let rem : (size + 2 ^ 32 - total) % 2 ^ 32 ≡ size - total = omega arith in
      let end : start + total + (size - total) ≡ start + size = omega arith in
      let small_enough : ltb block_size ((start + total) % block_size + (size - total)) ≡ false =
        ground arith in
      Writes-round s (start + total) (size - total) r (omega arith) (omega arith) fits (omega arith)
        _ (rw (rem, small_enough, end) (write_last-eq junk s total r fits lt))

  write_loop-Writes :
      (n : ℕ) (junk : ℕ → Bool) (s : Testfs) (total : ℕ)
      → IsReady s p i start size
      → total < size
      → 0 < n
      → (start + total) % block_size + (size - total) ≤ n * block_size
      → Writes s p i start (start + total) size buf (
          write_loop n junk p buf start size total
            ((start + total) / block_size)
            ((start + total) % block_size)
            s)
  write_loop-Writes zero junk s total r lt pos fuel = elim pos [ ]
  write_loop-Writes (suc n) junk s total r lt pos fuel =
      let from = start + total in
      let len = block_size - from % block_size in
      elim (Bool-cases (ltb block_size (from % block_size + (size - total)))) [
        | inl more ↦
            let ih =
              write_loop-Writes n junk (stepped s from len) (total + len)
                (stepped-IsReady s from len r (omega arith) (ground (arith, more)) (omega arith)
                  (omega arith))
                (ground (arith, more)) (ground (arith, more)) (ground (arith, more)) in
            let block : (start + (total + len)) / block_size ≡ from / block_size + 1 =
              omega arith in
            let ix : (start + (total + len)) % block_size ≡ 0 = omega arith in
            let place : start + (total + len) ≡ from + len = omega arith in
            rw (write_loop-round n junk s total r (ground (arith, more)) (omega arith)) (
              Writes-round s from len r (omega arith) (ground (arith, more)) (omega arith)
                (omega arith) _ (rw (← block) (rw (← ix) (rw (← place) ih))))
        | inr last ↦ write_loop-last n junk s total r (ground (arith, last)) lt
      ]

-- Where the inode is in memory, its blocks lie on the device and serve once each, and those of the
-- bytes to write exist, `testfs_write_data` of at least one byte, within the largest file and of a size
-- that an `int` holds, returns that size. The bytes of the file from `start` on are then those of the
-- buffer, all others of the file and all other blocks of the device are as they were, the file's blocks
-- are the same, and the inode is dirty and has the size of the file up to the last byte written, if that
-- is more than before; nothing else changes.
pub write_data-Writes :
    (s : Testfs) (p : ℕ) (i : Inode) (start size : ℕ) (buf : Buffer) (junk : ℕ → Bool)
    → IsReady s p i start size
    → 0 < size
    → size < 2 ^ 31
    → start + size ≤ max_block_nr * block_size
    → i.din.i_size < 2 ^ 63
    → Writes s p i start start size buf (write_data junk p buf start size s)
unfolding write_data
write_data-Writes s p i start size buf junk r pos small inside sized =
    let z : start + 0 ≡ start = omega arith in
    let loop =
      write_loop-Writes p i start size buf small inside pos sized (write_fuel size) junk s 0 r pos
        (omega arith) (omega arith) in
    rw z at loop
