-- ===== src/Fs/Block.antt =====
-- fs/block.c: whole blocks on the device. The stdio calls on the device file are taken to succeed,
-- but that reading past the end of the file is short and so ends the program.
use ece344_os.Prelude.{
  ◌≤◌, ◌≡◌, arith, ℕ, zero, suc, ◌+◌, ◌-◌, ◌*◌, ◌/◌, ◌%◌, ◌&&◌, none, some, ltb, leb, ◌==◌,
  if◌then◌else◌, max, ◌>>◌, pure,
}
use ece344_os.Fs.Layout.{Buffer, block_size, zeros}
use ece344_os.Fs.State.{Device, Testfs, M}

unfoldable pub write_device : Device → Buffer → ℕ → ℕ → Device
write_device d blocks start nr = record {
  content = λ b k.
      if leb start b && ltb b (start + nr)
      then blocks ((b - start) * block_size + k)
      else d.content b k;
  size = if nr == 0 then d.size else max d.size (start + nr);
}

-- `write_blocks`
unfoldable pub write_blocks : Buffer → ℕ → ℕ → M (Unit {0})
write_blocks blocks start nr s = some (tt, record s { dev = write_device s.dev blocks start nr })

-- `zero_blocks`
unfoldable pub zero_blocks : ℕ → ℕ → M (Unit {0})
zero_blocks start zero = pure tt
zero_blocks start (suc n) = write_blocks zeros start 1 >> zero_blocks (start + 1) n

-- `read_blocks`: the bytes read
unfoldable pub read_blocks : ℕ → ℕ → M Buffer
read_blocks start nr s =
    if leb (start + nr) s.dev.size
    then some ((λ k. s.dev.content (start + k / block_size) (k % block_size)), s)
    else none

pub read_blocks-eq :
    (start nr : ℕ) (s : Testfs)
    → start + nr ≤ s.dev.size
    → read_blocks start nr s
      ≡ some ((λ k. s.dev.content (start + k / block_size) (k % block_size)), s)
unfolding read_blocks
read_blocks-eq start nr s h = ground arith
