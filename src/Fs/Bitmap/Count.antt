-- ===== src/Fs/Bitmap/Count.antt =====
-- bitmap_nr_allocated of fs/bitmap.c, against the operations that change the bits.
use ece344_os.Prelude.{
  ℕ, zero, suc, ◌+◌, ◌/◌, ◌≤◌, ◌<◌, ◌≡◌, ◌≢◌, refl, inl, inr, true, false, not, ◌&&◌, ◌||◌, arith,
  ◌==◌, some, Bool-cases,
}
use ece344_os.Fs.Bitmap.{Bitmap, isset, unmark, count_bits, nr_allocated}
use ece344_os.Fs.Bitmap.Alloc.{IsValid, isset-without_bit, without_bit-IsValid, unmark-eq}

module _ (b b' : Bitmap) where
  count_bits-agree :
      (n : ℕ) → ((j : ℕ) → j < n → isset b' j ≡ isset b j) → count_bits b' n ≡ count_bits b n
  unfolding count_bits
  count_bits-agree zero h = refl
  count_bits-agree (suc n) h =
      ground (arith, h n (omega arith), count_bits-agree n (λ j hj. h j (omega arith)))

  count_bits-set :
      (n i : ℕ)
      → i < n
      → isset b i ≡ false
      → ((j : ℕ) → isset b' j ≡ (j == i || isset b j))
      → count_bits b' n ≡ count_bits b n + 1
  unfolding count_bits
  count_bits-set zero i hi c h = elim hi [ ]
  count_bits-set (suc n) i hi c h = elim (Bool-cases (n == i)) [
    | inl e ↦ ground (arith, h n, count_bits-agree n (λ j hj. ground (arith, h j)))
    | inr e ↦ ground (arith, h n, count_bits-set n i (ground arith) c h)
  ]

  count_bits-clear :
      (n i : ℕ)
      → i < n
      → isset b i ≡ true
      → ((j : ℕ) → isset b' j ≡ (not (j == i) && isset b j))
      → count_bits b' n + 1 ≡ count_bits b n
  unfolding count_bits
  count_bits-clear zero i hi c h = elim hi [ ]
  count_bits-clear (suc n) i hi c h = elim (Bool-cases (n == i)) [
    | inl e ↦ ground (arith, h n, count_bits-agree n (λ j hj. ground (arith, h j)))
    | inr e ↦ ground (arith, h n, count_bits-clear n i (ground arith) c h)
  ]

count_bits-full : (b : Bitmap) (n : ℕ) → ((i : ℕ) → i < n → isset b i ≡ true) → count_bits b n ≡ n
unfolding count_bits
count_bits-full b zero h = refl
count_bits-full b (suc n) h =
    ground (arith, h n (omega arith), count_bits-full b n (λ i hi. h i (omega arith)))

pub nr_allocated-taken :
    (b b' : Bitmap) (i : ℕ)
    → b'.nbits ≡ b.nbits
    → i < b.nbits
    → isset b i ≡ false
    → ((j : ℕ) → isset b' j ≡ (j == i || isset b j))
    → nr_allocated b' ≡ nr_allocated b + 1
unfolding nr_allocated
nr_allocated-taken b b' i e hi c h = simp e (count_bits-set b b' b.nbits i hi c h)

-- On a well-formed bitmap, bitmap_unmark of a set bit below nbits succeeds, lowers
-- bitmap_nr_allocated by one, keeps the size, clears that bit and no other, changes no byte but the
-- bit's, and leaves the bitmap well-formed.
pub nr_allocated-unmark :
    (b : Bitmap) (i : ℕ)
    → IsValid b
    → i < b.nbits
    → isset b i ≡ true
    → (b' : Bitmap) × (unmark b i ≡ some b')
      × (nr_allocated b' + 1 ≡ nr_allocated b)
      × (b'.nbits ≡ b.nbits)
      × ((j : ℕ) → isset b' j ≡ (not (j == i) && isset b j))
      × ((k : ℕ) → k ≢ i / 8 → b'.v k ≡ b.v k)
      × IsValid b'
unfolding nr_allocated
nr_allocated-unmark b i v hi c =
    let h = λ (j : ℕ). isset-without_bit b i j (v.bytes (i / 8)) in
    (
      _,
      unmark-eq b i hi c,
      count_bits-clear b _ b.nbits i hi c h,
      refl,
      h,
      (λ k ne. ground arith),
      without_bit-IsValid b i hi v,
    )

pub nr_allocated-full :
    (b : Bitmap) → ((i : ℕ) → i < b.nbits → isset b i ≡ true) → nr_allocated b ≡ b.nbits
unfolding nr_allocated
nr_allocated-full b h = count_bits-full b b.nbits h

count_bits-le : (b : Bitmap) (n : ℕ) → count_bits b n ≤ n
unfolding count_bits
count_bits-le b zero = omega arith
count_bits-le b (suc n) = ground (arith, count_bits-le b n)

pub nr_allocated-le : (b : Bitmap) → nr_allocated b ≤ b.nbits
unfolding nr_allocated
nr_allocated-le b = count_bits-le b b.nbits
