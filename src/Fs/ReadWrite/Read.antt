-- ===== src/Fs/ReadWrite/Read.antt =====
-- `testfs_read_data` of fs/read_write.c against the bytes of the file.
use ece344_os.Prelude.{
  ℕ, zero, suc, ◌+◌, ◌-◌, ◌*◌, ◌/◌, ◌%◌, ◌^◌, ◌≤◌, ◌<◌, ◌≡◌, refl, inl, inr, Option, some,
  Bool-cases, arith, ltb, if◌then◌else◌,
}
use ece344_os.Fs.Errno.{Ret, num}
use ece344_os.Fs.Layout.{Buffer, block_size, zeros, memcpy}
use ece344_os.Fs.State.{Dinode, Inode, Testfs}
use ece344_os.Fs.ReadWrite.{read_loop, read_fuel, read_data, max_block_nr}
use ece344_os.Fs.ReadWrite.Physical.{block_of, bytes_of, IsOnDevice, read_block-eq}

-- The byte of the file at an offset.
unfoldable pub file_byte : (ℕ → Buffer) → Dinode → ℕ → ℕ
file_byte c d offset = bytes_of c (block_of c d (offset / block_size)) (offset % block_size)

-- A result that is `total` bytes read, the file unchanged, with the buffer holding the file's bytes
-- from the place `from` to `total`, and what it held elsewhere.
pub data Reads (s : Testfs) (d : Dinode) (start from total : ℕ) (buf : Buffer)
    (r : Option ((Ret × Buffer) × Testfs)) : Type 0 where
  reads :
      (out : Buffer)
      → r ≡ some ((num total, out), s)
      → ((k : ℕ) → from ≤ k → k < total → out k ≡ file_byte s.dev.content d (start + k))
      → ((k : ℕ) → k < from → out k ≡ buf k)
      → ((k : ℕ) → total ≤ k → out k ≡ buf k)
      → Reads s d start from total buf r

-- One block's part of the file, copied.
memcpy-file :
    (s : Testfs) (d : Dinode) (start at n : ℕ) (buf : Buffer) (k : ℕ)
    → (start + at) % block_size + n ≤ block_size
    → at ≤ k
    → k < at + n
    → memcpy buf at
        (bytes_of s.dev.content (block_of s.dev.content d ((start + at) / block_size)))
        ((start + at) % block_size)
        n
        k
      ≡ file_byte s.dev.content d (start + k)
unfolding file_byte
memcpy-file s d start at n buf k h lo hi =
    let e : (start + k) / 8192 ≡ (start + at) / 8192 = omega arith in
    let f : (start + k) % 8192 ≡ k - at + (start + at) % 8192 = omega arith in ground (arith, e, f)

memcpy-outside : (at n : ℕ) (src buf : Buffer) (i k : ℕ) → k < at → memcpy buf at src i n k ≡ buf k
memcpy-outside at n src buf i k h = ground arith

memcpy-after :
    (at n : ℕ) (src buf : Buffer) (i k : ℕ) → at + n ≤ k → memcpy buf at src i n k ≡ buf k
memcpy-after at n src buf i k h = ground arith

-- What one round reads: up to the end of the block, or of the data asked for.
abbrev span : ℕ → ℕ → ℕ → ℕ
span start size total =
    let block_ix = (start + total) % block_size in
    if ltb ((size - total) % 2 ^ 32) (block_size - block_ix)
    then (size - total) % 2 ^ 32
    else block_size - block_ix

module _ (s : Testfs) (p : ℕ) (i : Inode) (start size : ℕ) (hi : s.inodes p ≡ some i)
    (v : IsOnDevice s i.din) (inside : start + size ≤ max_block_nr * block_size)
    (small : size < 2 ^ 31) where
  abbrev source : ℕ → Buffer
  source total =
      bytes_of s.dev.content (block_of s.dev.content i.din ((start + total) / block_size))

  -- A round, then the rounds after it.
  Reads-round :
      (total n : ℕ) (buf : Buffer) (r : Option ((Ret × Buffer) × Testfs))
      → (start + total) % block_size + n ≤ block_size
      → total + n ≤ size
      → Reads s i.din start
          (total + n)
          size
          (memcpy buf total (source total) ((start + total) % block_size) n)
          r
      → Reads s i.din start total size buf r
  Reads-round total n buf r fits le (reads out e mid before after) =
      reads out e
        (λ k lo up. elim (Bool-cases (ltb k (total + n))) [
          | inl f ↦ ground (arith, f, before k, memcpy-file s i.din start total n buf k fits lo)
          | inr f ↦ ground (arith, f, mid k)
        ])
        (λ k lt. ground (
          arith,
          before k,
          memcpy-outside total n (source total) buf ((start + total) % block_size) k,
        ))
        (λ k ge. ground (
          arith,
          after k,
          memcpy-after total n (source total) buf ((start + total) % block_size) k,
        ))

  read_loop-eq :
      (n total : ℕ) (block buf : Buffer)
      → total < size
      → read_loop (suc n) p start size total block buf s
        ≡ read_loop n p start size
            (total + span start size total)
            (source total)
            (memcpy buf total (source total) ((start + total) % block_size) (span start size total))
            s
  unfolding read_loop
  read_loop-eq n total block buf lt =
      let e : (total + span start size total) % 2 ^ 32 ≡ total + span start size total =
        ground arith in
      ground
        (arith, e, lt, read_block-eq s p ((start + total) / block_size) i block hi v (omega arith))

  pub read_loop-Reads :
      (n total : ℕ) (block buf : Buffer)
      → total ≤ size
      → 0 < n
      → (total < size → (start + size) / block_size + 2 ≤ n + (start + total) / block_size)
      → Reads s i.din start total size buf (read_loop n p start size total block buf s)
  unfolding read_loop
  read_loop-Reads zero total block buf le pos fuel = elim pos [ ]
  read_loop-Reads (suc n) total block buf le pos fuel = elim (Bool-cases (ltb total size)) [
    | inr e ↦
        reads buf (ground (arith, e)) (λ k lo up. absurd (ground (arith, e))) (λ k h. refl)
          (λ k h. refl)
    | inl e ↦
        let lt : total < size = ground (arith, e) in
        Reads-round total (span start size total) buf _ (ground arith) (ground arith) (
          rw (read_loop-eq n total block buf lt) (
            read_loop-Reads n (total + span start size total) (source total) _ (ground arith)
              (ground (arith, fuel lt)) (λ h. ground (arith, fuel lt))))
  ]

-- How much there is to read.
unfoldable pub available : Dinode → ℕ → ℕ → ℕ
available d start size = if ltb d.i_size (start + size) then d.i_size - start else size

one_block :
    (s : Testfs) (p : ℕ) (i : Inode) (start n : ℕ) (buf : Buffer)
    (r : Option ((Ret × Buffer) × Testfs))
    → start % block_size + n ≤ block_size
    → r
      ≡ some (
        (
          num n,
          memcpy buf 0
              (bytes_of s.dev.content (block_of s.dev.content i.din (start / block_size)))
              (start % block_size)
              n,
        ),
        s,
      )
    → Reads s i.din start 0 n buf r
one_block s p i start n buf r fits e =
    reads _ e
      (λ k lo up.
        let z : start + 0 ≡ start = omega arith in
        ground (arith, z, memcpy-file s i.din start 0 n buf k (omega arith) lo (omega arith)))
      (λ k lt. elim lt [ ]) (λ k ge. ground (arith, ge))

-- Where the file's blocks lie on the device, `testfs_read_data` at a place within the file, of a
-- size that an `int` holds, returns the number of bytes asked for, or of those left in the file if
-- they are fewer. It leaves the file system as it was, and has put the file's bytes into the
-- buffer, with zeros for holes; the rest of the buffer keeps its bytes.
pub read_data-Reads :
    (s : Testfs) (p : ℕ) (i : Inode) (start size : ℕ) (buf : Buffer)
    → s.inodes p ≡ some i
    → IsOnDevice s i.din
    → i.din.i_size ≤ max_block_nr * block_size
    → start ≤ i.din.i_size
    → start < max_block_nr * block_size
    → size < 2 ^ 31
    → Reads s i.din start 0 (available i.din start size) buf (read_data p buf start size s)
unfolding available read_data
read_data-Reads s p i start size buf hi v max_size inside start_lt small =
    let n = available i.din start size in
    let within : start + n ≤ max_block_nr * block_size = ground arith in
    let n_lt : n < 2 ^ 31 = ground arith in
    elim (Bool-cases (ltb block_size (start % block_size + n))) [
      | inl e ↦
          elim (read_loop-Reads s p i start n hi v within n_lt (read_fuel n) 0 zeros buf
            (ground arith) (ground arith) (λ h. ground arith)) [
              | reads out f mid before after ↦ reads out (ground (arith, hi, e, f)) mid before after
            ]
      | inr e ↦
          one_block s p i start n buf _ (ground (arith, e)) (
            ground
              (arith, hi, e, read_block-eq s p (start / block_size) i zeros hi v (omega arith)))
    ]
