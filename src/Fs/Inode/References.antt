-- ===== src/Fs/Inode/References.antt =====
-- The references to inodes (testfs_get_inode and testfs_put_inode of fs/inode.c), against a count of
-- references for each number.
use ece344_os.Prelude.{
  ℕ, ◌+◌, ◌<◌, ◌≡◌, ◌≢◌, sym, ap, ◌∙◌, none, some, arith, count, upd, ◌==◌, if◌then◌else◌, inl, inr,
  ◌⊎◌, Bool-cases,
}
use ece344_os.Fs.State.{Inode, Testfs}
use ece344_os.Fs.Inode.{inode_hashfn, inode_hash_find}
use ece344_os.Fs.Inode.Saved.{read_from, loaded}
use ece344_os.Fs.Inode.Cached.{IsCached, in_memory, not_in_memory, inode_hash_find-Found}

-- The references to the inode of a number: 0 if it is not in memory.
unfoldable pub refs : Testfs → ℕ → ℕ
refs s nr = elim (inode_hash_find nr s) [
  | none ↦ 0
  | some (found, _) ↦ elim found [
    | none ↦ 0
    | some p ↦ elim (s.inodes p) [ none ↦ 0 | some i ↦ i.i_count ]
  ]
]

pub refs-in_memory :
    (s : Testfs) (p n : ℕ) (i : Inode)
    → IsCached s
    → s.inodes p ≡ some i
    → n ≡ i.i_nr
    → refs s n ≡ i.i_count
unfolding refs
refs-in_memory s p n i v e m = elim (inode_hash_find-Found n s v) [
  | in_memory q j f g k ↦
      let at : q ≡ p = v.unique q p j i g e (k ∙ m) in
      let same : some j ≡ some i = sym g ∙ ap s.inodes at ∙ e in ground (arith, f, g, same)
  | not_in_memory f none_there ↦ absurd (none_there p i e (sym m))
]

pub refs-none :
    (s : Testfs) (n : ℕ)
    → IsCached s
    → ((p : ℕ) (i : Inode) → s.inodes p ≡ some i → i.i_nr ≢ n)
    → refs s n ≡ 0
unfolding refs
refs-none s n v none_there = elim (inode_hash_find-Found n s v) [
  | in_memory q j f g k ↦ absurd (none_there q j g k)
  | not_in_memory f _ ↦ ground (arith, f)
]

-- The references after the inode at `p` has been changed to `j`.
pub stored-refs :
    (s : Testfs) (p n : ℕ) (i j : Inode)
    → IsCached s
    → IsCached (record s { inodes = upd s.inodes p (some j) })
    → s.inodes p ≡ some i
    → j.i_nr ≡ i.i_nr
    → refs (record s { inodes = upd s.inodes p (some j) }) n
      ≡ (if n == i.i_nr then j.i_count else refs s n)
stored-refs s p n i j v w e k =
    let s' = record s { inodes = upd s.inodes p (some j) } in
    elim (Bool-cases (n == i.i_nr)) [
      | inl y ↦
          let now = refs-in_memory s' p n j w (ground arith) (ground (arith, y, k)) in
          ground (arith, y, now)
      | inr ne ↦ elim (inode_hash_find-Found n s v) [
        | in_memory q x f g m ↦ elim (Bool-cases (q == p)) [
          | inl z ↦
              let same : some x ≡ some i = sym g ∙ ground (arith, z, e) in
              absurd (ground (arith, ne, m, same))
          | inr z ↦
              let now = refs-in_memory s' q n x w (ground (arith, z, g)) (sym m) in
              let before = refs-in_memory s q n x v g (sym m) in ground (arith, ne, now, before)
        ]
        | not_in_memory f none_there ↦
            let before = refs-none s n v none_there in
            let now = refs-none s' n w (λ q x g. elim (Bool-cases (q == p)) [
              | inl z ↦
                  let same : j ≡ x = ground (arith, z, g) in
                  let nr = ap (λ (y : Inode). y.i_nr) same in ground (arith, ne, nr, k)
              | inr z ↦ none_there q x (ground (arith, z, g))
            ]) in
            ground (arith, ne, now, before)
      ]
    ]

-- The inode of `nr` comes into memory.
module _ (s : Testfs) (nr : ℕ) (v : IsCached s)
    (absent : (p : ℕ) (i : Inode) → s.inodes p ≡ some i → i.i_nr ≢ nr) where
  abbrev here : Testfs
  here = loaded s nr

  old_or_new :
      (q : ℕ) (x : Inode)
      → here.inodes q ≡ some x
      → ((q ≡ s.next) × (read_from s nr ≡ x)) ⊎ ((q ≢ s.next) × (s.inodes q ≡ some x))
  old_or_new q x f = elim (Bool-cases (q == s.next)) [
    | inl z ↦ inl (ground (arith, z), ground (arith, z, f))
    | inr z ↦ inr (ground (arith, z), ground (arith, z, f))
  ]

  kept : (q : ℕ) (x : Inode) → s.inodes q ≡ some x → here.inodes q ≡ some x
  kept q x f = let lt = v.below q x f in ground (arith, f)

  new_alone : (h : ℕ) → count s.next (s.table h) ≡ 0
  new_alone h = elim (Bool-cases (count s.next (s.table h) == 0)) [
    | inl z ↦ ground (arith, z)
    | inr z ↦
        let (x, f, _) = v.chained h s.next (ground (arith, z)) in
        let lt = v.below s.next x f in absurd (omega arith)
  ]

  pub loaded-IsCached : IsCached here
  loaded-IsCached = record {
    chained = λ h q pos. elim (Bool-cases (q == s.next)) [
      | inl z ↦
          let there : q ≡ s.next = ground (arith, z) in
          let none_old : count q (s.table h) ≡ 0 = rw there (new_alone h) in
          (read_from s nr, ground (arith, z), ground (arith, pos, none_old))
      | inr z ↦
          let before : 0 < count q (s.table h) = ground (arith, pos, z) in
          let (x, f, l) = v.chained h q before in (x, kept q x f, l)
    ];
    placed = λ q x f. elim (old_or_new q x f) [
      | inl (at, same) ↦
          let none_old = new_alone (inode_hashfn nr) in
          let nr' : nr ≡ x.i_nr = ap (λ (y : Inode). y.i_nr) same in
          let h : inode_hashfn nr ≡ inode_hashfn x.i_nr = ap inode_hashfn nr' in
          ground (arith, at, none_old, h)
      | inr (ne, g) ↦ ground (arith, ne, v.placed q x g)
    ];
    counted = λ q x f. elim (old_or_new q x f) [
      | inl (at, same) ↦ let n = ap (λ (y : Inode). y.i_count) same in (omega arith, omega arith)
      | inr (ne, g) ↦ v.counted q x g
    ];
    unique = λ q r x y f g k. elim (old_or_new q x f) [
      | inl (at, same) ↦ elim (old_or_new r y g) [
        | inl (at', _) ↦ at ∙ sym at'
        | inr (_, g') ↦ absurd (absent r y g' (sym k ∙ sym (ap (λ (z : Inode). z.i_nr) same)))
      ]
      | inr (_, f') ↦ elim (old_or_new r y g) [
        | inl (_, same) ↦ absurd (absent q x f' (k ∙ sym (ap (λ (z : Inode). z.i_nr) same)))
        | inr (_, g') ↦ v.unique q r x y f' g' k
      ]
    ];
    below = λ q x f. elim (old_or_new q x f) [
      | inl (at, _) ↦ omega arith
      | inr (_, g) ↦ let lt = v.below q x g in omega arith
    ];
  }

  pub loaded-refs : (n : ℕ) → refs here n ≡ (if n == nr then refs s n + 1 else refs s n)
  loaded-refs n = elim (Bool-cases (n == nr)) [
    | inl y ↦
        let now =
          refs-in_memory here s.next n (read_from s nr) loaded-IsCached (ground arith)
            (ground (arith, y)) in
        let before = refs-none s nr v absent in ground (arith, y, now, before)
    | inr ne ↦ elim (inode_hash_find-Found n s v) [
      | in_memory q x f g m ↦
          let now = refs-in_memory here q n x loaded-IsCached (kept q x g) (sym m) in
          let before = refs-in_memory s q n x v g (sym m) in ground (arith, ne, now, before)
      | not_in_memory f none_there ↦
          let before = refs-none s n v none_there in
          let now = refs-none here n loaded-IsCached (λ q x g. elim (old_or_new q x g) [
            | inl (_, same) ↦ let k = ap (λ (z : Inode). z.i_nr) same in ground (arith, ne, k)
            | inr (_, g') ↦ none_there q x g'
          ]) in
          ground (arith, ne, now, before)
    ]
  ]
