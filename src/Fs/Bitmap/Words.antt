-- ===== src/Fs/Bitmap/Words.antt =====
-- The byte operations of fs/bitmap.c: what setting, clearing and testing one bit do to a byte.
use ece344_os.Prelude.{
  ℕ, zero, suc, ◌+◌, ◌-◌, ◌<◌, bit_and, bit_or, ◌≡◌, refl, inl, inr, Bool, true, false, not, ◌&&◌,
  ◌||◌, arith, ltb, ◌==◌, Option, none, some, Bool-cases, if◌then◌else◌,
}
use ece344_os.Fs.Bitmap.{word_allbits, mask_of, free_offset}

-- How many of the numbers under `bound` fail a test.
failures : (ℕ → Bool) → ℕ → ℕ
failures test zero = 0
failures test (suc bound) =
    let below = failures test bound in if test bound then below else below + 1

passes : (test : ℕ → Bool) (bound x : ℕ) → failures test bound ≡ 0 → x < bound → test x ≡ true
unfolding failures
passes test zero x none_fail small = elim small [ ]
passes test (suc bound) x none_fail small = elim (Bool-cases (test bound)) [
  | inl e ↦ ground (arith, e, none_fail, small, passes test bound x)
  | inr e ↦ ground (arith, e, none_fail)
]

clean : (ℕ → Bool) → ℕ → Bool
clean test bound = failures test bound == 0

clean-at : (test : ℕ → Bool) (bound x : ℕ) → clean test bound ≡ true → x < bound → test x ≡ true
unfolding clean
clean-at test bound x h small = passes test bound x (ground (arith, h)) small

each_offset : (ℕ → Bool) → Bool
each_offset test = clean test 8

each_offset-at : (test : ℕ → Bool) (x : ℕ) → each_offset test ≡ true → x < 8 → test x ≡ true
unfolding each_offset
each_offset-at test x = clean-at test 8 x

each_byte : (ℕ → Bool) → Bool
each_byte test = clean test 256

each_byte-at : (test : ℕ → Bool) (x : ℕ) → each_byte test ≡ true → x < 256 → test x ≡ true
unfolding each_byte
each_byte-at test x = clean-at test 256 x

-- The bit at `offset` of a byte.
unfoldable pub bit : ℕ → ℕ → Bool
bit w offset = not (bit_and w (mask_of offset) == 0)

beq : Bool → Bool → Bool
beq true b = b
beq false b = not b

beq_sound : (a b : Bool) → beq a b ≡ true → a ≡ b
unfolding beq
beq_sound true b h = ground arith
beq_sound false b h = ground arith

-- Setting the bit `o`, seen at the bit `i`.
set_test : ℕ → ℕ → ℕ → Bool
unfolding bit beq
set_test w o i = beq (bit (bit_or w (mask_of o)) i) (i == o || bit w i)

clear_test : ℕ → ℕ → ℕ → Bool
unfolding bit beq
clear_test w o i = beq (bit (bit_and w (word_allbits - mask_of o)) i) (not (i == o) && bit w i)

table : (ℕ → ℕ → ℕ → Bool) → Bool
unfolding each_byte each_offset clean failures
table t = each_byte (λ w. each_offset (λ o. each_offset (t w o)))

table_sound :
    (t : ℕ → ℕ → ℕ → Bool) (w o i : ℕ) → table t ≡ true → w < 256 → o < 8 → i < 8 → t w o i ≡ true
unfolding table
table_sound t w o i h hw ho hi =
    each_offset-at (t w o) i
      (each_offset-at (λ o. each_offset (t w o)) o
        (each_byte-at (λ w. each_offset (λ o. each_offset (t w o))) w h hw) ho)
      hi

set_table : table set_test ≡ true
unfolding table set_test
set_table = refl

clear_table : table clear_test ≡ true
unfolding table clear_test
clear_table = refl

pub bit-set :
    (w o i : ℕ) → w < 256 → o < 8 → i < 8 → bit (bit_or w (mask_of o)) i ≡ (i == o || bit w i)
unfolding set_test
bit-set w o i hw ho hi = beq_sound _ _ (table_sound set_test w o i set_table hw ho hi)

pub bit-clear :
    (w o i : ℕ)
    → w < 256
    → o < 8
    → i < 8
    → bit (bit_and w (word_allbits - mask_of o)) i ≡ (not (i == o) && bit w i)
unfolding clear_test
bit-clear w o i hw ho hi = beq_sound _ _ (table_sound clear_test w o i clear_table hw ho hi)

range_table : each_byte (λ w. each_offset (λ o. ltb (bit_or w (mask_of o)) 256)) ≡ true
unfolding each_byte each_offset clean failures
range_table = refl

pub set-lt : (w o : ℕ) → w < 256 → o < 8 → bit_or w (mask_of o) < 256
set-lt w o hw ho =
    let h =
      each_offset-at (λ o. ltb (bit_or w (mask_of o)) 256) o
        (each_byte-at (λ w. each_offset (λ o. ltb (bit_or w (mask_of o)) 256)) w range_table hw)
        ho in
    ground arith

clear_range_table :
    each_byte (λ w. each_offset (λ o. ltb (bit_and w (word_allbits - mask_of o)) 256)) ≡ true
unfolding each_byte each_offset clean failures
clear_range_table = refl

pub clear-lt : (w o : ℕ) → w < 256 → o < 8 → bit_and w (word_allbits - mask_of o) < 256
clear-lt w o hw ho =
    let h =
      each_offset-at (λ o. ltb (bit_and w (word_allbits - mask_of o)) 256) o
        (each_byte-at (λ w. each_offset (λ o. ltb (bit_and w (word_allbits - mask_of o)) 256)) w
          clear_range_table hw)
        ho in
    ground arith

full_table : each_byte (λ w. w == word_allbits || not (each_offset (bit w))) ≡ true
unfolding each_byte each_offset clean failures bit
full_table = refl

clean-of :
    (test : ℕ → Bool) (bound : ℕ) → ((x : ℕ) → x < bound → test x ≡ true) → clean test bound ≡ true
unfolding clean failures
clean-of test zero all = refl
clean-of test (suc bound) all =
    let here = all bound (omega arith) in
    let below = clean-of test bound (λ x small. all x (omega arith)) in ground (arith, here, below)

-- A byte with all its bits set is 0xff, and the other way round.
pub full_of_bits :
    (w : ℕ) → w < 256 → ((i : ℕ) → i < 8 → bit w i ≡ true) → (w == word_allbits) ≡ true
unfolding each_offset
full_of_bits w hw h = ground (
  arith,
  clean-of (bit w) 8 h,
  each_byte-at (λ w. w == word_allbits || not (each_offset (bit w))) w full_table hw,
)

allbits_table : each_offset (bit word_allbits) ≡ true
unfolding each_byte each_offset clean failures bit
allbits_table = refl

pub bit-allbits : (i : ℕ) → i < 8 → bit word_allbits i ≡ true
bit-allbits i h = each_offset-at (bit word_allbits) i allbits_table h

zero_table : each_offset (λ i. not (bit 0 i)) ≡ true
unfolding each_byte each_offset clean failures bit
zero_table = refl

pub bit-zero : (i : ℕ) → i < 8 → bit 0 i ≡ false
bit-zero i h = ground (arith, each_offset-at (λ i. not (bit 0 i)) i zero_table h)

-- The scan from `j` over `n` offsets meets no clear bit, or stops at the first.
pub data Scan (w j n : ℕ) : Option ℕ → Type 0 where
  full : ((i : ℕ) → i < n → bit w (j + i) ≡ true) → Scan w j n none
  found :
      (k o : ℕ)
      → o ≡ j + k
      → k < n
      → bit w o ≡ false
      → ((i : ℕ) → i < k → bit w (j + i) ≡ true)
      → Scan w j n (some o)

shift :
    (w j : ℕ) (n : ℕ)
    → bit w j ≡ true
    → ((i : ℕ) → i < n → bit w (j + 1 + i) ≡ true)
    → (i : ℕ) → i < suc n
    → bit w (j + i) ≡ true
shift w j n h hs zero hi = rw (let e : j + 0 ≡ j = omega arith in e) h
shift w j n h hs (suc i) hi =
    rw (let e : j + suc i ≡ j + 1 + i = omega arith in e) (hs i (omega arith))

Scan-suc : (w j n : ℕ) (r : Option ℕ) → bit w j ≡ true → Scan w (j + 1) n r → Scan w j (suc n) r
Scan-suc w j n none h (full hs) = full (shift w j n h hs)
Scan-suc w j n (some o) h (found k _ e hk hc hs) =
    found (suc k) o (omega arith) (omega arith) hc (shift w j k h hs)

pub free_offset-Scan : (n j w : ℕ) → Scan w j n (free_offset n j w)
unfolding free_offset bit
free_offset-Scan zero j w = full (λ i h. elim h [ ])
free_offset-Scan (suc n) j w = elim (Bool-cases (bit_and w (mask_of j) == 0)) [
  | inl e ↦ rw e (found 0 j (omega arith) (omega arith) (rw e) (λ i h. elim h [ ]))
  | inr e ↦ rw e (Scan-suc w j n _ (rw e) (free_offset-Scan n (j + 1) w))
]
