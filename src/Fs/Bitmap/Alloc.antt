-- ===== src/Fs/Bitmap/Alloc.antt =====
-- The allocation of bits: bitmap_alloc, bitmap_mark and bitmap_unmark on a well-formed bitmap.
use native.Mathlib.Nat.{zero-add}
use mathlib.Core.Path.{subst}
use ece344_os.Prelude.{
  ℕ, zero, suc, ◌+◌, ◌-◌, ◌*◌, ◌/◌, ◌%◌, ◌^◌, ◌≤◌, ◌<◌, bit_and, bit_or, ◌≡◌, ◌≢◌, refl, inl, inr,
  true, false, not, ◌&&◌, ◌||◌, arith, ltb, ◌==◌, Option, none, some, Bool-cases, upd, sym, lt→ltb,
  ==_iff,
}
use ece344_os.Fs.Errno.{Ret, num, err, enospc}
use ece344_os.Fs.Bitmap.{
  Bitmap, word_allbits, mask_of, divroundup, take_bit, alloc_from, alloc, isset, mark, unmark,
}
use ece344_os.Fs.Bitmap.Words.{
  bit, bit-set, bit-clear, set-lt, clear-lt, full_of_bits, bit-allbits, Scan, full, found,
  free_offset-Scan,
}

-- Every byte is a byte, the size leaves room to round up, and the bits past the end are set.
pub record IsValid (b : Bitmap) : Type 0 where
  pub bytes : (ix : ℕ) → b.v ix < 256
  pub small : b.nbits + 7 < 2 ^ 32
  pub over : (i : ℕ) → b.nbits ≤ i → i < divroundup b.nbits 8 * 8 → isset b i ≡ true

pub isset-bit : (b : Bitmap) (i : ℕ) → isset b i ≡ bit (b.v (i / 8)) (i % 8)
unfolding isset bit
isset-bit b i = refl

abbrev pub with_bit : Bitmap → ℕ → Bitmap
with_bit b i = record b { v = upd b.v (i / 8) (bit_or (b.v (i / 8)) (mask_of (i % 8))) }

abbrev pub without_bit : Bitmap → ℕ → Bitmap
without_bit b i = record b {
  v = upd b.v (i / 8) (bit_and (b.v (i / 8)) (word_allbits - mask_of (i % 8)));
}

pub isset-with_bit :
    (b : Bitmap) (i j : ℕ) → b.v (i / 8) < 256 → isset (with_bit b i) j ≡ (j == i || isset b j)
isset-with_bit b i j h = ground (
  arith,
  isset-bit (with_bit b i) j,
  isset-bit b j,
  bit-set (b.v (i / 8)) (i % 8) (j % 8) h (omega arith) (omega arith),
)

pub isset-without_bit :
    (b : Bitmap) (i j : ℕ)
    → b.v (i / 8) < 256
    → isset (without_bit b i) j ≡ (not (j == i) && isset b j)
isset-without_bit b i j h = ground (
  arith,
  isset-bit (without_bit b i) j,
  isset-bit b j,
  bit-clear (b.v (i / 8)) (i % 8) (j % 8) h (omega arith) (omega arith),
)

isset_at : (b : Bitmap) (ix o : ℕ) → o < 8 → isset b (ix * 8 + o) ≡ bit (b.v ix) o
isset_at b ix o h =
    let e : (ix * 8 + o) / 8 ≡ ix = omega arith in
    let f : (ix * 8 + o) % 8 ≡ o = omega arith in rw (isset-bit b (ix * 8 + o), e, f)

-- A byte's bits are the bits of its range.
isset_in :
    (b : Bitmap) (ix n : ℕ)
    → n ≤ 8
    → ((o : ℕ) → o < n → bit (b.v ix) o ≡ true)
    → (i : ℕ) → ix * 8 ≤ i
    → i < ix * 8 + n
    → isset b i ≡ true
isset_in b ix n hn h i lo hi =
    let e : i ≡ ix * 8 + (i - ix * 8) = omega arith in
    rw (e, isset_at b ix (i - ix * 8) (omega arith)) (h (i - ix * 8) (omega arith))

-- What the search of bitmap_alloc over the bits from `lo` up to `hi` returns.
data Search (b : Bitmap) (lo hi : ℕ) : Option (Ret × Bitmap) → Type 0 where
  none_free : ((i : ℕ) → lo ≤ i → i < hi → isset b i ≡ true) → Search b lo hi (some (err enospc, b))
  free_at :
      (i : ℕ)
      → lo ≤ i
      → i < hi
      → isset b i ≡ false
      → ((j : ℕ) → lo ≤ j → j < i → isset b j ≡ true)
      → Search b lo hi (some (num i, with_bit b i))

join :
    (b : Bitmap) (lo mid hi : ℕ)
    → ((i : ℕ) → lo ≤ i → i < mid → isset b i ≡ true)
    → ((i : ℕ) → mid ≤ i → i < hi → isset b i ≡ true)
    → (i : ℕ) → lo ≤ i
    → i < hi
    → isset b i ≡ true
join b lo mid hi h k i l r = elim (Bool-cases (ltb i mid)) [
  | inl e ↦ h i l (ground arith)
  | inr e ↦ k i (ground arith) r
]

Search-skip :
    (b : Bitmap) (lo mid hi : ℕ) {r : Option (Ret × Bitmap)}
    → lo ≤ mid
    → ((i : ℕ) → lo ≤ i → i < mid → isset b i ≡ true)
    → Search b mid hi r
    → Search b lo hi r
Search-skip b lo mid hi m h (none_free k) = none_free (join b lo mid hi h k)
Search-skip b lo mid hi m h (free_at i l r c k) = free_at i (omega arith) r c (join b lo mid i h k)

take_bit-some :
    (b : Bitmap) (ix o : ℕ)
    → o < 8
    → ix * 8 + o < 2 ^ 32
    → ix * 8 + o < b.nbits
    → take_bit b ix (some o) ≡ some (num (ix * 8 + o), with_bit b (ix * 8 + o))
unfolding take_bit
take_bit-some b ix o ho hs hi =
    let e : (ix * 8 + o) / 8 ≡ ix = omega arith in
    let f : (ix * 8 + o) % 8 ≡ o = omega arith in
    let g : (ix * 8 + o) % 2 ^ 32 ≡ ix * 8 + o = omega arith in rw (e, f, g, lt→ltb _ _ hi)

take_bit-Search :
    (b : Bitmap) (ix hi : ℕ) (r : Option ℕ)
    → IsValid b
    → hi ≤ divroundup b.nbits 8 * 8
    → hi < 2 ^ 32
    → ix * 8 + 8 ≤ hi
    → (b.v ix == word_allbits) ≡ false
    → Scan (b.v ix) 0 8 r
    → Search b (ix * 8) hi (take_bit b ix r)
unfolding take_bit
take_bit-Search b ix hi none v hw hs hh ne (full h) =
    let e : (b.v ix == word_allbits) ≡ true =
      full_of_bits (b.v ix) (v.bytes ix) (λ i hi. rw zero-add at (h i hi)) in
    cc
take_bit-Search b ix hi (some o) v hw hs hh ne (found k _ e hk hc h) =
    subst (Search b (ix * 8) hi) (sym (take_bit-some b ix o (omega arith) (omega arith) inside)) (
      free_at (ix * 8 + o) (omega arith) (omega arith) clear
        (isset_in b ix o (omega arith) (λ i hi. rw zero-add at (h i (omega arith)))))
  where
    clear : isset b (ix * 8 + o) ≡ false
    clear = rw (isset_at b ix o (omega arith)) hc

    inside : ix * 8 + o < b.nbits
    inside = elim (Bool-cases (ltb (ix * 8 + o) b.nbits)) [
      | inl e ↦ ground arith
      | inr n ↦ absurd (let t = v.over (ix * 8 + o) (ground arith) (omega arith) in cc clear)
    ]

alloc_from-Search :
    (n ix : ℕ) (b : Bitmap)
    → IsValid b
    → (ix + n) * 8 ≡ divroundup b.nbits 8 * 8
    → divroundup b.nbits 8 * 8 < 2 ^ 32
    → Search b (ix * 8) (divroundup b.nbits 8 * 8) (alloc_from n ix b)
unfolding alloc_from
alloc_from-Search zero ix b v e s = none_free (λ i l r. absurd (omega arith))
alloc_from-Search (suc n) ix b v e s = elim (Bool-cases (b.v ix == word_allbits)) [
  | inl t ↦ rw t (
      Search-skip b (ix * 8) ((ix + 1) * 8) _ (omega arith)
        (λ i l r. isset_in b ix 8 (omega arith) (all_set t) i l (omega arith))
        (alloc_from-Search n (ix + 1) b v (omega arith) s))
  | inr f ↦
      rw f
        (take_bit-Search b ix _ _ v (omega arith) s (omega arith) f (free_offset-Scan 8 0 (b.v ix)))
]
  where
    all_set : (b.v ix == word_allbits) ≡ true → (o : ℕ) → o < 8 → bit (b.v ix) o ≡ true
    all_set t o ho = let e : b.v ix ≡ word_allbits = (==_iff _ _).0 t in rw e (bit-allbits o ho)

words-covers : (n : ℕ) → n + 7 < 2 ^ 32 → n ≤ divroundup n 8 * 8
unfolding divroundup
words-covers n h = omega arith

words-small : (n : ℕ) → n + 7 < 2 ^ 32 → divroundup n 8 * 8 < 2 ^ 32
unfolding divroundup
words-small n h = omega arith

pub with_bit-IsValid : (b : Bitmap) (i : ℕ) → IsValid b → IsValid (with_bit b i)
with_bit-IsValid b i v = record {
  bytes = λ ix. ground (arith, v.bytes ix, set-lt (b.v (i / 8)) (i % 8) (v.bytes (i / 8)));
  small = v.small;
  over = λ j lo hi. ground (arith, isset-with_bit b i j (v.bytes (i / 8)), v.over j lo hi);
}

pub without_bit-IsValid : (b : Bitmap) (i : ℕ) → i < b.nbits → IsValid b → IsValid (without_bit b i)
without_bit-IsValid b i h v = record {
  bytes = λ ix. ground (arith, v.bytes ix, clear-lt (b.v (i / 8)) (i % 8) (v.bytes (i / 8)));
  small = v.small;
  over = λ j lo hi. ground (arith, isset-without_bit b i j (v.bytes (i / 8)), v.over j lo hi);
}

-- What bitmap_alloc may do to `b`: refuse, with every bit in use, or take the lowest clear bit.
pub data Allocates (b : Bitmap) : Option (Ret × Bitmap) → Type 0 where
  full_up : ((i : ℕ) → i < b.nbits → isset b i ≡ true) → Allocates b (some (err enospc, b))
  taken :
      (i : ℕ) (b' : Bitmap)
      → i < b.nbits
      → isset b i ≡ false
      → ((j : ℕ) → j < i → isset b j ≡ true)
      → b'.nbits ≡ b.nbits
      → ((j : ℕ) → isset b' j ≡ (j == i || isset b j))
      → ((k : ℕ) → k ≢ i / 8 → b'.v k ≡ b.v k)
      → IsValid b'
      → Allocates b (some (num i, b'))

Search-Allocates :
    (b : Bitmap) (r : Option (Ret × Bitmap))
    → IsValid b
    → Search b 0 (divroundup b.nbits 8 * 8) r
    → Allocates b r
Search-Allocates b _ v (none_free h) =
    full_up (λ i hi. h i (omega arith) (omega (arith, words-covers b.nbits v.small)))
Search-Allocates b _ v (free_at i l r c h) =
    taken i (with_bit b i) inside c (λ j hj. h j (omega arith) hj) refl
      (λ j. isset-with_bit b i j (v.bytes (i / 8))) (λ k ne. ground arith) (with_bit-IsValid b i v)
  where
    inside : i < b.nbits
    inside = elim (Bool-cases (ltb i b.nbits)) [
      | inl e ↦ ground arith
      | inr n ↦ absurd (let t = v.over i (ground arith) r in cc)
    ]

-- On a well-formed bitmap bitmap_alloc never fails an assert. It returns -ENOSPC and changes
-- nothing when each of the nbits bits is set; otherwise it returns the lowest clear bit, sets that
-- bit and no other, and leaves the bitmap well-formed.
pub alloc-Allocates : (b : Bitmap) → IsValid b → Allocates b (alloc b)
unfolding alloc
alloc-Allocates b v =
    Search-Allocates b _ v
      (alloc_from-Search (divroundup b.nbits 8) 0 b v (omega arith) (words-small b.nbits v.small))

pub mark-eq :
    (b : Bitmap) (i : ℕ) → i < b.nbits → isset b i ≡ false → mark b i ≡ some (with_bit b i)
unfolding mark isset
mark-eq b i h c = ground arith

pub unmark-eq :
    (b : Bitmap) (i : ℕ) → i < b.nbits → isset b i ≡ true → unmark b i ≡ some (without_bit b i)
unfolding unmark isset
unmark-eq b i h c = ground arith

-- Marking a clear bit below nbits and unmarking it again succeeds on a well-formed bitmap, and
-- leaves every bit as it was.
pub unmark-mark :
    (b : Bitmap) (i : ℕ)
    → IsValid b
    → i < b.nbits
    → isset b i ≡ false
    → (b₁ b₂ : Bitmap) × (mark b i ≡ some b₁)
      × (isset b₁ i ≡ true)
      × (unmark b₁ i ≡ some b₂)
      × ((j : ℕ) → isset b₂ j ≡ isset b j)
unmark-mark b i v h c =
    let on = isset-with_bit b i i (v.bytes (i / 8)) in
    let w = with_bit-IsValid b i v in
    (
      with_bit b i,
      without_bit (with_bit b i) i,
      mark-eq b i h c,
      ground arith,
      unmark-eq (with_bit b i) i h (ground arith),
      λ j. ground (
        arith,
        isset-without_bit (with_bit b i) i j (w.bytes (i / 8)),
        isset-with_bit b i j (v.bytes (i / 8)),
        c,
      ),
    )
