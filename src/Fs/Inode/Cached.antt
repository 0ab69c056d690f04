-- ===== src/Fs/Inode/Cached.antt =====
-- The inodes in memory (fs/inode.c): the invariant of their hash table and reference counts.
use ece344_os.Prelude.{
  ℕ, ◌^◌, ◌<◌, ◌≡◌, ◌≢◌, refl, sym, ap, ◌∙◌, none, some, arith, List, [], ◌∷◌, count, upd, ◌==◌,
  inl, inr, Bool-cases,
}
use ece344_os.Fs.State.{Inode, Testfs}
use ece344_os.Fs.Inode.{inode_hashfn, find_in, inode_hash_find}

-- Each inode in memory is in the chain of its number, once, and nothing else is in a chain. No two have
-- the same number, each has a reference, and their addresses have been allocated.
pub record IsCached (s : Testfs) : Type 0 where
  pub chained :
      (h p : ℕ)
      → 0 < count p (s.table h)
      → (i : Inode) × (s.inodes p ≡ some i) × (inode_hashfn i.i_nr ≡ h)
  pub placed :
      (p : ℕ) (i : Inode) → s.inodes p ≡ some i → count p (s.table (inode_hashfn i.i_nr)) ≡ 1
  pub counted : (p : ℕ) (i : Inode) → s.inodes p ≡ some i → (0 < i.i_count) × (i.i_count < 2 ^ 32)
  pub unique :
      (p q : ℕ) (i j : Inode) → s.inodes p ≡ some i → s.inodes q ≡ some j → i.i_nr ≡ j.i_nr → p ≡ q
  pub below : (p : ℕ) (i : Inode) → s.inodes p ≡ some i → p < s.next

-- What the walk along a chain finds.
data Finds (ps : List ℕ) (nr : ℕ) (s : Testfs) : Type 0 where
  hit :
      (p : ℕ) (i : Inode)
      → find_in ps nr s ≡ some (some p, s)
      → s.inodes p ≡ some i
      → i.i_nr ≡ nr
      → Finds ps nr s
  miss :
      find_in ps nr s ≡ some (none, s)
      → ((p : ℕ) (i : Inode) → 0 < count p ps → s.inodes p ≡ some i → i.i_nr ≢ nr)
      → Finds ps nr s

find_in-Finds :
    (ps : List ℕ) (nr : ℕ) (s : Testfs)
    → ((p : ℕ) → 0 < count p ps → (i : Inode) × (s.inodes p ≡ some i))
    → Finds ps nr s
unfolding find_in
find_in-Finds [] nr s h = miss refl (λ p i pos e. absurd (omega arith))
find_in-Finds (p ∷ ps) nr s h =
    let (i, e) = h p (ground arith) in
    let rest = find_in-Finds ps nr s (λ q pos. h q (ground arith)) in
    elim (Bool-cases (i.i_nr == nr)) [
      | inl y ↦ hit p i (ground (arith, e, y)) e (ground (arith, y))
      | inr n ↦ elim rest [
        | hit q j f g k ↦ hit q j (ground (arith, e, n, f)) g k
        | miss f none_there ↦ miss (ground (arith, e, n, f)) (λ q j pos g k.
            elim (Bool-cases (q == p)) [
              | inl z ↦
                  let same : some i ≡ some j = sym e ∙ ground (arith, z, g) in
                  ground (arith, n, same, k)
              | inr z ↦ none_there q j (ground (arith, z, pos)) g k
            ])
      ]
    ]

-- What `inode_hash_find` finds: the inode of the number in memory, if there is one.
pub data Found (nr : ℕ) (s : Testfs) : Type 0 where
  in_memory :
      (p : ℕ) (i : Inode)
      → inode_hash_find nr s ≡ some (some p, s)
      → s.inodes p ≡ some i
      → i.i_nr ≡ nr
      → Found nr s
  not_in_memory :
      inode_hash_find nr s ≡ some (none, s)
      → ((p : ℕ) (i : Inode) → s.inodes p ≡ some i → i.i_nr ≢ nr)
      → Found nr s

pub inode_hash_find-Found : (nr : ℕ) (s : Testfs) → IsCached s → Found nr s
unfolding inode_hash_find
inode_hash_find-Found nr s v =
    let h = inode_hashfn nr in
    elim (find_in-Finds (s.table h) nr s (λ p pos. let (i, e, _) = v.chained h p pos in (i, e))) [
      | hit p i e f k ↦ in_memory p i e f k
      | miss e none_there ↦ not_in_memory e (λ p i f k.
          let here : count p (s.table h) ≡ 1 = rw k at (v.placed p i f) in
          none_there p i (omega arith) f k)
    ]

-- An inode changes, but neither its number nor the table.
pub store-IsCached :
    (s : Testfs) (p : ℕ) (i j : Inode)
    → IsCached s
    → s.inodes p ≡ some i
    → j.i_nr ≡ i.i_nr
    → 0 < j.i_count
    → j.i_count < 2 ^ 32
    → IsCached (record s { inodes = upd s.inodes p (some j) })
store-IsCached s p i j v e k pos lt =
    let old : (q : ℕ) (x : Inode)
        → upd s.inodes p (some j) q ≡ some x
        → (y : Inode) × (s.inodes q ≡ some y) × (x.i_nr ≡ y.i_nr) =
      λ q x f. elim (Bool-cases (q == p)) [
        | inl z ↦
            let same : j ≡ x = ground (arith, z, f) in
            (i, ground (arith, z, e), ground (arith, ap (λ (w : Inode). w.i_nr) same, k))
        | inr z ↦ (x, ground (arith, z, f), refl)
      ] in
    record {
      chained = λ h q more. elim (Bool-cases (q == p)) [
        | inl z ↦
            let (x, f, l) = v.chained h q more in
            let same : some x ≡ some i = sym f ∙ ground (arith, z, e) in
            let nr : j.i_nr ≡ x.i_nr = ground (arith, k, same) in
            (j, ground (arith, z), ap inode_hashfn nr ∙ l)
        | inr z ↦ let (x, f, l) = v.chained h q more in (x, ground (arith, z, f), l)
      ];
      placed = λ q x f. let (y, g, nr) = old q x f in rw nr (v.placed q y g);
      counted = λ q x f. elim (Bool-cases (q == p)) [
        | inl z ↦
            let same : j ≡ x = ground (arith, z, f) in
            let n = ap (λ (w : Inode). w.i_count) same in (omega arith, omega arith)
        | inr z ↦ v.counted q x (ground (arith, z, f))
      ];
      unique = λ q r x y f g nr.
          let (x', f', a) = old q x f in
          let (y', g', b) = old r y g in v.unique q r x' y' f' g' (omega arith);
      below = λ q x f. let (y, g, _) = old q x f in v.below q y g;
    }
