-- ===== src/Fs/Inode/Counting.antt =====
-- testfs_get_inode and testfs_put_inode (fs/inode.c) count the references to the inodes.
use ece344_os.Prelude.{
  ℕ, ◌+◌, ◌-◌, ◌^◌, ◌≤◌, ◌<◌, ◌≡◌, refl, ap, ◌∙◌, false, none, some, arith, upd, ◌==◌,
  if◌then◌else◌, inl, inr, ◌⊎◌, Bool-cases,
}
use ece344_os.Fs.State.{Inode, Testfs}
use ece344_os.Fs.Super.{incr32, decr32}
use ece344_os.Fs.Inode.{inode_hash_find, inode_hash_remove, get_inode, put_inode}
use ece344_os.Fs.Inode.Saved.{read_from, loaded, load_inode-eq}
use ece344_os.Fs.Inode.Cached.{
  IsCached, in_memory, not_in_memory, inode_hash_find-Found, store-IsCached,
}
use ece344_os.Fs.Inode.References.{refs, refs-in_memory, stored-refs, loaded-IsCached, loaded-refs}
use ece344_os.Fs.Inode.Release.{gone, gone-IsCached, gone-refs}

-- A reference to the inode of `nr`, at the address `p`, more than in the state `s`.
pub record Gets (s : Testfs) (nr p : ℕ) (s' : Testfs) : Type 0 where
  pub returns : get_inode nr s ≡ some (p, s')
  pub inode : Inode
  pub at : s'.inodes p ≡ some inode
  pub number : inode.i_nr ≡ nr
  pub origin :
      (inode ≡ read_from s nr) ⊎ (s.inodes p ≡ some (record inode { i_count = inode.i_count - 1 }))
  pub counts : (n : ℕ) → refs s' n ≡ (if n == nr then refs s n + 1 else refs s n)
  pub device : s'.dev ≡ s.dev
  pub cached : IsCached s'

pub data Got (s : Testfs) (nr : ℕ) : Type 0 where
  got : (p : ℕ) (s' : Testfs) → Gets s nr p s' → Got s nr

-- Another reference to an inode in memory.
more_refs :
    (s : Testfs) (nr p : ℕ) (i : Inode)
    → IsCached s
    → inode_hash_find nr s ≡ some (some p, s)
    → s.inodes p ≡ some i
    → i.i_nr ≡ nr
    → i.i_count + 1 < 2 ^ 32
    → Got s nr
unfolding get_inode
more_refs s nr p i v f e k lt =
    let j = record i { i_count = incr32 i.i_count } in
    let s' = record s { inodes = upd s.inodes p (some j) } in
    let w = store-IsCached s p i j v e refl (omega arith) (omega arith) in
    got p s' (record {
      returns = ground (arith, f, e);
      inode = j;
      at = ground arith;
      number = k;
      origin = inr (ground (arith, e, lt));
      counts = λ n.
          let before = refs-in_memory s p i.i_nr i v e refl in
          elim (Bool-cases (n == nr)) [
            | inl y ↦
                let at : n ≡ i.i_nr = ground (arith, y, k) in
                let old : refs s n ≡ i.i_count = rw at before in
                ground (arith, y, at, old, stored-refs s p n i j v w e refl)
            | inr ne ↦ ground (arith, ne, k, stored-refs s p n i j v w e refl)
          ];
      device = refl;
      cached = w;
    })

-- Where the state is well-formed, the blocks of inodes lie on the device, the number is below 2 ^ 14
-- and no count is about to overflow, testfs_get_inode returns an inode of that number in memory with
-- one reference more, whether it was in memory or not. The references to all other inodes and the device stay as they
-- are, and the table and the counts are well-formed again.
pub get_inode-Gets :
    (s : Testfs) (nr : ℕ)
    → IsCached s
    → nr < 2 ^ 14
    → s.sb.inode_blocks_start + 128 ≤ s.dev.size
    → ((p : ℕ) (i : Inode) → s.inodes p ≡ some i → i.i_count + 1 < 2 ^ 32)
    → Got s nr
unfolding get_inode
get_inode-Gets s nr v h room few = elim (inode_hash_find-Found nr s v) [
  | in_memory p i f e k ↦ more_refs s nr p i v f e k (few p i e)
  | not_in_memory f absent ↦ got s.next (loaded s nr) (record {
    returns = ground (arith, f, load_inode-eq nr s h room);
    inode = read_from s nr;
    at = ground arith;
    number = refl;
    origin = inl refl;
    counts = loaded-refs s nr v absent;
    device = refl;
    cached = loaded-IsCached s nr v absent;
  })
]

-- The last reference goes, and the inode with it; or one of several goes.
pub record Puts (s : Testfs) (p : ℕ) (i : Inode) (s' : Testfs) : Type 0 where
  pub returns : put_inode p s ≡ some (tt, s')
  pub at :
      s'.inodes p ≡ (if i.i_count == 1 then none else some (record i { i_count = i.i_count - 1 }))
  pub counts : (n : ℕ) → refs s' n ≡ (if n == i.i_nr then refs s n - 1 else refs s n)
  pub device : s'.dev ≡ s.dev
  pub cached : IsCached s'

pub data PutBack (s : Testfs) (p : ℕ) (i : Inode) : Type 0 where
  put_back : (s' : Testfs) → Puts s p i s' → PutBack s p i

last_goes :
    (s : Testfs) (p : ℕ) (i : Inode) (v : IsCached s) (e : s.inodes p ≡ some i)
    → i.dirty ≡ false
    → i.i_count ≡ 1
    → put_inode p s ≡ some (tt, gone s p i v e)
unfolding put_inode inode_hash_remove
last_goes s p i v e clean one =
    let j = record i { i_count = 0 } in
    let each : (x : ℕ) → upd (upd s.inodes p (some j)) p none x ≡ upd s.inodes p none x =
      λ x. ground arith in
    let twice : upd (upd s.inodes p (some j)) p none ≡ upd s.inodes p none = λ k x. each x k in
    ground (arith, e, clean, one, twice)

-- In a well-formed state testfs_put_inode of a clean inode in memory returns with one reference to it
-- less: the last reference takes the inode out of the table and frees it. The references to all other
-- inodes and the device stay as they are, and the table and the counts are well-formed again.
pub put_inode-Puts :
    (s : Testfs) (p : ℕ) (i : Inode)
    → IsCached s
    → s.inodes p ≡ some i
    → i.dirty ≡ false
    → PutBack s p i
unfolding put_inode
put_inode-Puts s p i v e clean =
    let (pos, lt) = v.counted p i e in
    let before = refs-in_memory s p i.i_nr i v e refl in
    elim (Bool-cases (i.i_count == 1)) [
      | inl y ↦ put_back (gone s p i v e) (record {
        returns = last_goes s p i v e clean (ground (arith, y));
        at = ground (arith, y);
        counts = λ n. elim (Bool-cases (n == i.i_nr)) [
          | inl z ↦
              let at : n ≡ i.i_nr = ground (arith, z) in
              let old : refs s n ≡ i.i_count = rw at before in
              ground (arith, y, z, old, gone-refs s p i v e n)
          | inr z ↦ ground (arith, z, gone-refs s p i v e n)
        ];
        device = refl;
        cached = gone-IsCached s p i v e;
      })
      | inr n ↦
          let j = record i { i_count = i.i_count - 1 } in
          let less : decr32 i.i_count ≡ i.i_count - 1 = omega arith in
          let w = store-IsCached s p i j v e refl (ground (arith, n, pos)) (omega arith) in
          put_back (record s { inodes = upd s.inodes p (some j) })
            (record {
              returns = ground (arith, e, clean, less, n, pos);
              at = ground (arith, n);
              counts = λ m. elim (Bool-cases (m == i.i_nr)) [
                | inl z ↦
                    let at : m ≡ i.i_nr = ground (arith, z) in
                    let old : refs s m ≡ i.i_count = rw at before in
                    ground (arith, z, old, stored-refs s p m i j v w e refl)
                | inr z ↦ ground (arith, z, stored-refs s p m i j v w e refl)
              ];
              device = refl;
              cached = w;
            })
    ]

-- Where the state is well-formed, the blocks of inodes lie on the device, the number is below 2 ^ 14,
-- the inodes in memory are clean and no count is about to overflow, putting an inode back that has
-- just been got leaves the references to every inode, and the device, as they were.
pub put_inode-get :
    (s : Testfs) (nr : ℕ)
    → IsCached s
    → nr < 2 ^ 14
    → s.sb.inode_blocks_start + 128 ≤ s.dev.size
    → ((p : ℕ) (i : Inode) → s.inodes p ≡ some i → (i.dirty ≡ false) × (i.i_count + 1 < 2 ^ 32))
    → (p : ℕ) × (t u : Testfs) × (get_inode nr s ≡ some (p, t))
      × (put_inode p t ≡ some (tt, u))
      × ((n : ℕ) → refs u n ≡ refs s n)
      × (u.dev ≡ s.dev)
put_inode-get s nr v h room all = elim (get_inode-Gets s nr v h room (λ p i e. (all p i e).1)) [
  | got p t g ↦
      let clean : g.inode.dirty ≡ false = elim g.origin [
        | inl e ↦ ap (λ (i : Inode). i.dirty) e
        | inr e ↦ (all p (record (g.inode) { i_count = g.inode.i_count - 1 }) e).0
      ] in
      elim (put_inode-Puts t p g.inode g.cached g.at clean) [
        | put_back u w ↦ (
          p,
          t,
          u,
          g.returns,
          w.returns,
          λ n. ground (arith, w.counts n, g.counts n, g.number),
          w.device ∙ g.device,
        )
      ]
]
