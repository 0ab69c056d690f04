-- ===== src/Fs/Bitmap.antt =====
-- fs/bitmap.c: the arrays of bits that record which inodes and blocks are in use.
-- The bytes `v` are a function from the byte's index. `none` is a failed assert.
-- malloc is taken to succeed, and `free` has no part in the model.
pub mod Words
pub mod Alloc
pub mod Count
pub mod Create
use ece344_os.Prelude.{
  ℕ, zero, suc, ◌+◌, ◌-◌, ◌*◌, ◌/◌, ◌%◌, ◌^◌, bit_and, bit_or, Bool, true, false, not, Option, none,
  some, ltb, ◌==◌, if◌then◌else◌, upd,
}
use ece344_os.Fs.Errno.{Ret, num, err, enospc}

-- `struct bitmap`
pub record Bitmap : Type 0 where
  pub nbits : ℕ
  pub v : ℕ → ℕ

-- BITS_PER_WORD and WORD_ALLBITS
abbrev pub bits_per_word : ℕ
bits_per_word = 8

abbrev pub word_allbits : ℕ
word_allbits = 0xff

-- DIVROUNDUP at `u_int32_t`
unfoldable pub divroundup : ℕ → ℕ → ℕ
divroundup a b = (a + b - 1) % 2 ^ 32 / b

-- `((WORD_TYPE) 1) << offset`
abbrev pub mask_of : ℕ → ℕ
mask_of offset = 2 ^ offset

-- The loop that marks the bits `j`, `j + 1`, ... of the last byte, `n` of them.
unfoldable pub mark_over : ℕ → ℕ → ℕ → ℕ
mark_over zero j w = w
mark_over (suc n) j w = mark_over n (j + 1) (bit_or w (mask_of j))

-- `bitmap_create`
unfoldable pub create : ℕ → Option Bitmap
create nbits =
    let words = divroundup nbits bits_per_word in
    let ix = words - 1 in
    let overbits = nbits - ix * bits_per_word in
    let over : ℕ → ℕ = upd (λ _. 0) ix (mark_over (bits_per_word - overbits) overbits 0) in
    if ltb (nbits / bits_per_word) words
    then if nbits / bits_per_word == words - 1
      then if ltb 0 overbits
        then if ltb overbits bits_per_word then some (record { nbits = nbits; v = over }) else none
        else none
      else none
    else some (record { nbits = nbits; v = λ _. 0 })

-- The inner loop of `bitmap_alloc`: the first offset from `offset` on, of `n`, that is clear.
unfoldable pub free_offset : ℕ → ℕ → ℕ → Option ℕ
free_offset zero offset w = none
free_offset (suc n) offset w =
    if bit_and w (mask_of offset) == 0 then some offset else free_offset n (offset + 1) w

-- The end of that loop: the bit is set, or `assert(0)` fails.
unfoldable pub take_bit : Bitmap → ℕ → Option ℕ → Option (Ret × Bitmap)
take_bit b ix none = none
take_bit b ix (some offset) =
    let index = (ix * bits_per_word + offset) % 2 ^ 32 in
    if ltb index b.nbits
    then some (num index, record b { v = upd b.v ix (bit_or (b.v ix) (mask_of offset)) })
    else none

-- The outer loop of `bitmap_alloc`, with `n` bytes left from `ix` on.
unfoldable pub alloc_from : ℕ → ℕ → Bitmap → Option (Ret × Bitmap)
alloc_from zero ix b = some (err enospc, b)
alloc_from (suc n) ix b =
    if not (b.v ix == word_allbits)
    then take_bit b ix (free_offset bits_per_word 0 (b.v ix))
    else alloc_from n (ix + 1) b

-- `bitmap_alloc`
unfoldable pub alloc : Bitmap → Option (Ret × Bitmap)
alloc b = alloc_from (divroundup b.nbits bits_per_word) 0 b

-- `bitmap_isset`, with `bitmap_translate`
unfoldable pub isset : Bitmap → ℕ → Bool
isset b index = not (bit_and (b.v (index / bits_per_word)) (mask_of (index % bits_per_word)) == 0)

-- `bitmap_mark`
unfoldable pub mark : Bitmap → ℕ → Option Bitmap
mark b index =
    let ix = index / bits_per_word in
    let mask = mask_of (index % bits_per_word) in
    if ltb index b.nbits
    then if bit_and (b.v ix) mask == 0
      then some (record b { v = upd b.v ix (bit_or (b.v ix) mask) })
      else none
    else none

-- `bitmap_unmark`: `~mask` on a byte is `0xff - mask`.
unfoldable pub unmark : Bitmap → ℕ → Option Bitmap
unmark b index =
    let ix = index / bits_per_word in
    let mask = mask_of (index % bits_per_word) in
    if ltb index b.nbits
    then if not (bit_and (b.v ix) mask == 0)
      then some (record b { v = upd b.v ix (bit_and (b.v ix) (word_allbits - mask)) })
      else none
    else none

-- The loop of `bitmap_nr_allocated`, over the first `n` bits.
unfoldable pub count_bits : Bitmap → ℕ → ℕ
count_bits b zero = 0
count_bits b (suc n) = if isset b n then count_bits b n + 1 else count_bits b n

-- `bitmap_nr_allocated`
unfoldable pub nr_allocated : Bitmap → ℕ
nr_allocated b = count_bits b b.nbits
