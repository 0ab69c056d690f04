-- ===== src/Fs/Inode/Release.antt =====
-- An inode that leaves the memory (testfs_put_inode of fs/inode.c), and the references to the others.
use ece344_os.Prelude.{
  ℕ, ◌-◌, ◌≡◌, ◌≢◌, sym, ap, ◌∙◌, none, some, arith, List, [], ◌∷◌, count, upd, ◌==◌, if◌then◌else◌,
  inl, inr, Bool-cases,
}
use ece344_os.Fs.State.{Inode, Testfs}
use ece344_os.Fs.Inode.{inode_hashfn, unlink}
use ece344_os.Fs.Inode.Cached.{IsCached, in_memory, not_in_memory, inode_hash_find-Found}
use ece344_os.Fs.Inode.References.{refs, refs-in_memory, refs-none}

count-unlink :
    (p q : ℕ) (ps : List ℕ)
    → count q (unlink p ps) ≡ (if q == p then count q ps - 1 else count q ps)
unfolding unlink
count-unlink p q [] = ground arith
count-unlink p q (x ∷ xs) = ground (arith, count-unlink p q xs)

-- The inode at `p` leaves the memory.
module _ (s : Testfs) (p : ℕ) (i : Inode) (v : IsCached s) (e : s.inodes p ≡ some i) where
  abbrev pub home : ℕ
  home = inode_hashfn i.i_nr

  abbrev pub gone : Testfs
  gone = record s {
    inodes = upd s.inodes p none;
    table = upd s.table home (unlink p (s.table home));
  }

  remains : (q : ℕ) (x : Inode) → gone.inodes q ≡ some x → (q ≢ p) × (s.inodes q ≡ some x)
  remains q x f = elim (Bool-cases (q == p)) [
    | inl z ↦ absurd (ground (arith, z, f))
    | inr z ↦ (ground (arith, z), ground (arith, z, f))
  ]

  count-gone : (h q : ℕ) → q ≢ p → count q (gone.table h) ≡ count q (s.table h)
  count-gone h q ne = elim (Bool-cases (h == home)) [
    | inl y ↦
        let at : home ≡ h = ground (arith, y) in
        let same : count q (s.table home) ≡ count q (s.table h) =
          ap (λ k. count q (s.table k)) at in
        ground (arith, y, count-unlink p q (s.table home), ne, same)
    | inr n ↦ ground (arith, n)
  ]

  out_of_chains : (h : ℕ) → count p (gone.table h) ≡ 0
  out_of_chains h = elim (Bool-cases (h == home)) [
    | inl y ↦ ground (arith, y, count-unlink p p (s.table home), v.placed p i e)
    | inr n ↦ elim (Bool-cases (count p (s.table h) == 0)) [
      | inl z ↦ ground (arith, n, z)
      | inr z ↦
          let (x, f, l) = v.chained h p (ground (arith, z)) in
          let same : some i ≡ some x = sym e ∙ f in
          let nr : i.i_nr ≡ x.i_nr = ground (arith, same) in
          let at : home ≡ h = ap inode_hashfn nr ∙ l in absurd (ground (arith, n, at))
    ]
  ]

  pub gone-IsCached : IsCached gone
  gone-IsCached = record {
    chained = λ h q pos. elim (Bool-cases (q == p)) [
      | inl z ↦
          let at : q ≡ p = ground (arith, z) in
          let zero_there : count q (gone.table h) ≡ 0 = rw at (out_of_chains h) in
          absurd (omega arith)
      | inr z ↦
          let same = count-gone h q (ground (arith, z)) in
          let (x, f, l) = v.chained h q (omega arith) in (x, ground (arith, z, f), l)
    ];
    placed = λ q x f.
        let (ne, g) = remains q x f in count-gone (inode_hashfn x.i_nr) q ne ∙ v.placed q x g;
    counted = λ q x f. let (_, g) = remains q x f in v.counted q x g;
    unique = λ q r x y f g k.
        let (_, f') = remains q x f in let (_, g') = remains r y g in v.unique q r x y f' g' k;
    below = λ q x f. let (_, g) = remains q x f in v.below q x g;
  }

  pub gone-refs : (n : ℕ) → refs gone n ≡ (if n == i.i_nr then 0 else refs s n)
  gone-refs n = elim (Bool-cases (n == i.i_nr)) [
    | inl y ↦
        let now = refs-none gone n gone-IsCached (λ q x f k.
          let (ne, g) = remains q x f in ne (v.unique q p x i g e (ground (arith, y, k)))) in
        ground (arith, y, now)
    | inr ne ↦ elim (inode_hash_find-Found n s v) [
      | in_memory q x f g m ↦ elim (Bool-cases (q == p)) [
        | inl z ↦
            let same : some x ≡ some i = sym g ∙ ground (arith, z, e) in
            absurd (ground (arith, ne, m, same))
        | inr z ↦
            let now = refs-in_memory gone q n x gone-IsCached (ground (arith, z, g)) (sym m) in
            let before = refs-in_memory s q n x v g (sym m) in ground (arith, ne, now, before)
      ]
      | not_in_memory f none_there ↦
          let before = refs-none s n v none_there in
          let now = refs-none gone n gone-IsCached (λ q x g. none_there q x ((remains q x g).1)) in
          ground (arith, ne, now, before)
    ]
  ]
