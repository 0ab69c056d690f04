-- ===== src/Fs/Bitmap/Create.antt =====
-- bitmap_create of fs/bitmap.c: a fresh bitmap is well-formed and has no bit in use.
use ece344_os.Prelude.{
  ℕ, zero, suc, ◌+◌, ◌-◌, ◌*◌, ◌/◌, ◌%◌, ◌^◌, ◌<◌, ◌≡◌, ◌≢◌, refl, inl, inr, false, ◌||◌, arith,
  ltb, leb, ◌==◌, some, Bool-cases, bit_or, upd,
}
use ece344_os.Fs.Bitmap.{
  Bitmap, create, isset, mark_over, mask_of, divroundup, count_bits, nr_allocated,
}
use ece344_os.Fs.Bitmap.Words.{bit, bit-set, set-lt, bit-zero}
use ece344_os.Fs.Bitmap.Alloc.{IsValid, isset-bit}

mark_over-lt : (n j w : ℕ) → n + j ≡ 8 → w < 256 → mark_over n j w < 256
unfolding mark_over
mark_over-lt zero j w e h = h
mark_over-lt (suc n) j w e h = mark_over-lt n (j + 1) _ (omega arith) (set-lt w j h (omega arith))

bit-mark_over :
    (n j w i : ℕ) → n + j ≡ 8 → w < 256 → i < 8 → bit (mark_over n j w) i ≡ (leb j i || bit w i)
unfolding mark_over
bit-mark_over zero j w i e h hi = ground arith
bit-mark_over (suc n) j w i e h hi = ground (
  arith,
  bit-mark_over n (j + 1) (bit_or w (mask_of j)) i (omega arith) (set-lt w j h (omega arith)) hi,
  bit-set w j i h (omega arith) hi,
)

pub count_bits-none :
    (b : Bitmap) (n : ℕ) → ((i : ℕ) → i < n → isset b i ≡ false) → count_bits b n ≡ 0
unfolding count_bits
count_bits-none b zero h = refl
count_bits-none b (suc n) h =
    ground (arith, h n (omega arith), count_bits-none b n (λ i hi. h i (omega arith)))

-- A bitmap of n bits whose bytes are clear but for the bits from n on.
fresh : ℕ → ℕ → Bitmap
fresh n ix = record { nbits = n; v = upd (λ _. 0) ix (mark_over (8 - (n - ix * 8)) (n - ix * 8) 0) }

isset-fresh :
    (n ix i : ℕ) → ix * 8 < n → n < ix * 8 + 8 → i < ix * 8 + 8 → isset (fresh n ix) i ≡ leb n i
unfolding fresh
isset-fresh n ix i lo hi h = ground (
  arith,
  isset-bit (fresh n ix) i,
  bit-mark_over (8 - (n - ix * 8)) (n - ix * 8) 0 (i % 8) (omega arith) (omega arith) (omega arith),
  bit-zero (i % 8) (omega arith),
)

blank : ℕ → Bitmap
blank n = record { nbits = n; v = λ _. 0 }

isset-blank : (n i : ℕ) → isset (blank n) i ≡ false
unfolding blank
isset-blank n i = ground (arith, isset-bit (blank n) i, bit-zero (i % 8) (omega arith))

blank-IsValid : (n : ℕ) → n + 7 < 2 ^ 32 → n % 8 ≡ 0 → IsValid (blank n)
unfolding blank divroundup
blank-IsValid n h e = record {
  bytes = λ ix. omega arith;
  small = h;
  over = λ i lo hi. absurd (omega arith);
}

fresh-IsValid : (n : ℕ) → n + 7 < 2 ^ 32 → n % 8 ≢ 0 → IsValid (fresh n (n / 8))
unfolding fresh divroundup
fresh-IsValid n h e = record {
  bytes = λ ix.
      ground
        (arith, mark_over-lt (8 - (n - n / 8 * 8)) (n - n / 8 * 8) 0 (omega arith) (omega arith));
  small = h;
  over =
      λ i lo hi. ground (arith, isset-fresh n (n / 8) i (omega arith) (omega arith) (omega arith));
}

create-blank : (n : ℕ) → n + 7 < 2 ^ 32 → n % 8 ≡ 0 → create n ≡ some (blank n)
unfolding create divroundup blank
create-blank n h e = let w : ltb (n / 8) ((n + 8 - 1) % 2 ^ 32 / 8) ≡ false = ground arith in rw w

create-fresh : (n : ℕ) → n + 7 < 2 ^ 32 → n % 8 ≢ 0 → create n ≡ some (fresh n (n / 8))
unfolding create divroundup fresh
create-fresh n h e =
    let w : (n + 8 - 1) % 2 ^ 32 / 8 ≡ n / 8 + 1 = omega arith in
    let ix : n / 8 + 1 - 1 ≡ n / 8 = omega arith in rw (w, ix) (ground arith)

fresh-clear : (n : ℕ) → n % 8 ≢ 0 → (i : ℕ) → i < n → isset (fresh n (n / 8)) i ≡ false
fresh-clear n e i hi =
    ground (arith, isset-fresh n (n / 8) i (omega arith) (omega arith) (omega arith))

-- What bitmap_create promises: n bits, none in use.
pub record IsFresh (n : ℕ) (b : Bitmap) : Type 0 where
  pub size : b.nbits ≡ n
  pub valid : IsValid b
  pub clear : (i : ℕ) → i < n → isset b i ≡ false
  pub unused : nr_allocated b ≡ 0

-- For a size that can be rounded up to whole bytes in 32 bits, bitmap_create passes its asserts
-- and returns a well-formed bitmap of that size with every bit clear, so that
-- bitmap_nr_allocated counts 0.
pub create_lem : (n : ℕ) → n + 7 < 2 ^ 32 → (b : Bitmap) × (create n ≡ some b) × IsFresh n b
unfolding nr_allocated
create_lem n h = elim (Bool-cases (n % 8 == 0)) [
  | inl e ↦ (
    blank n,
    create-blank n h (ground arith),
    record {
      size = unfold blank in refl;
      valid = blank-IsValid n h (ground arith);
      clear = λ i hi. isset-blank n i;
      unused = count_bits-none (blank n) _ (λ i hi. isset-blank n i);
    },
  )
  | inr e ↦ (
    fresh n (n / 8),
    create-fresh n h (ground arith),
    record {
      size = unfold fresh in refl;
      valid = fresh-IsValid n h (ground arith);
      clear = fresh-clear n (ground arith);
      unused = unfold fresh in count_bits-none (fresh n (n / 8)) n (fresh-clear n (ground arith));
    },
  )
]
