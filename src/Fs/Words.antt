-- ===== src/Fs/Words.antt =====
-- The 32-bit words of a struct as the bytes of a buffer, and back (the casts of fs/super.c and
-- fs/inode.c).
use ece344_os.Prelude.{ℕ, ◌+◌, ◌*◌, ◌/◌, ◌%◌, ◌^◌, ◌<◌, ◌≡◌, arith}
use ece344_os.Fs.Layout.{Buffer, byte_of, get_int}

bytes-back :
    (n : ℕ)
    → n < 2 ^ 32
    → byte_of n 0 + 2 ^ 8 * byte_of n 1 + 2 ^ 16 * byte_of n 2 + 2 ^ 24 * byte_of n 3 ≡ n
bytes-back n h = omega arith

-- The word `i` of a buffer that starts with the bytes of the words up to it.
pub get_int-words :
    (word : ℕ → ℕ) (b : Buffer) (i : ℕ)
    → word i < 2 ^ 32
    → ((k : ℕ) → k < 4 * i + 4 → b k ≡ byte_of (word (k / 4)) (k % 4))
    → get_int b i ≡ word i
unfolding get_int
get_int-words word b i h agree =
    let e0 : 4 * i / 4 ≡ i = omega arith in
    let e1 : (4 * i + 1) / 4 ≡ i = omega arith in
    let e2 : (4 * i + 2) / 4 ≡ i = omega arith in
    let e3 : (4 * i + 3) / 4 ≡ i = omega arith in
    let f0 : 4 * i % 4 ≡ 0 = omega arith in
    let f1 : (4 * i + 1) % 4 ≡ 1 = omega arith in
    let f2 : (4 * i + 2) % 4 ≡ 2 = omega arith in
    let f3 : (4 * i + 3) % 4 ≡ 3 = omega arith in
    rw
      (
        agree (4 * i) (omega arith),
        agree (4 * i + 1) (omega arith),
        agree (4 * i + 2) (omega arith),
        agree (4 * i + 3) (omega arith),
        e0,
        e1,
        e2,
        e3,
        f0,
        f1,
        f2,
        f3,
      )
      (bytes-back (word i) h)
