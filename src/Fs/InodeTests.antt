-- ===== src/Fs/InodeTests.antt =====
-- The theorems on references to inodes at a concrete state: the inode 5 at the address 7, with two
-- references.
use ece344_os.Prelude.{
  ℕ, ◌+◌, ◌^◌, ◌<◌, ◌≡◌, refl, sym, ap, ◌∙◌, false, arith, none, ◌%◌, some, [], ◌∷◌, count, ◌==◌,
  if◌then◌else◌, Bool-cases, inl, inr,
}
use ece344_os.Fs.Layout.{zeros}
use ece344_os.Fs.State.{Inode, Testfs}
use ece344_os.Fs.Inode.{inode_hashfn, zero_dinode, get_inode, put_inode}
use ece344_os.Fs.Inode.Cached.{IsCached}
use ece344_os.Fs.Inode.References.{refs}
use ece344_os.Fs.Inode.Counting.{Got, PutBack, get_inode-Gets, put_inode-Puts, put_inode-get}

abbrev five : Inode
five = record { din = zero_dinode; dirty = false; i_nr = 5; i_count = 2 }

abbrev shelf : Testfs
shelf = record {
  sb = record {
    inode_freemap_start = 1;
    block_freemap_start = 2;
    inode_blocks_start = 18;
    data_blocks_start = 146;
    used_inode_count = 2;
    used_block_count = 3;
    max_fs_blocks = 300;
  };
  dev = record { content = λ b k. (b + k) % 256; size = 300 };
  inode_freemap = record { nbits = 2 ^ 16; v = zeros };
  block_freemap = record { nbits = 2 ^ 20; v = zeros };
  inodes = λ p. if p == 7 then some five else none;
  next = 8;
  table = λ h. if h == inode_hashfn 5 then 7 ∷ [] else [];
}

only_five : (p : ℕ) (i : Inode) → shelf.inodes p ≡ some i → (p ≡ 7) × (five ≡ i)
only_five p i e = elim (Bool-cases (p == 7)) [
  | inl y ↦ (ground (arith, y), ground (arith, y, e))
  | inr n ↦ absurd (ground (arith, n, e))
]

chain_of_five : (h p : ℕ) → 0 < count p (shelf.table h) → (h ≡ inode_hashfn 5) × (p ≡ 7)
chain_of_five h p pos = elim (Bool-cases (h == inode_hashfn 5)) [
  | inl y ↦ (ground (arith, y), ground (arith, y, pos))
  | inr n ↦ absurd (ground (arith, n, pos))
]

shelf-IsCached : IsCached shelf
shelf-IsCached = record {
  chained =
      λ h p pos. let (at, here) = chain_of_five h p pos in (five, ground (arith, here), sym at);
  placed = λ p i e.
      let (here, same) = only_five p i e in
      let nr : 5 ≡ i.i_nr = ap (λ (x : Inode). x.i_nr) same in
      let h : inode_hashfn 5 ≡ inode_hashfn i.i_nr = ap inode_hashfn nr in ground (arith, h, here);
  counted = λ p i e.
      let (_, same) = only_five p i e in
      let n : 2 ≡ i.i_count = ap (λ (x : Inode). x.i_count) same in (omega arith, omega arith);
  unique = λ p q i j e f k.
      let (here, _) = only_five p i e in let (there, _) = only_five q j f in here ∙ sym there;
  below = λ p i e. let (here, _) = only_five p i e in omega arith;
}

small_counts :
    (p : ℕ) (i : Inode) → shelf.inodes p ≡ some i → (i.dirty ≡ false) × (i.i_count + 1 < 2 ^ 32)
small_counts p i e =
    let (_, same) = only_five p i e in
    let n : 2 ≡ i.i_count = ap (λ (x : Inode). x.i_count) same in
    (sym (ap (λ (x : Inode). x.dirty) same), omega arith)

get_inode-Gets_example : Got shelf 6
get_inode-Gets_example =
    get_inode-Gets shelf 6 shelf-IsCached (omega arith) (omega arith)
      (λ p i e. (small_counts p i e).1)

put_inode-Puts_example : PutBack shelf 7 five
put_inode-Puts_example = put_inode-Puts shelf 7 five shelf-IsCached refl refl

put_inode-get_example :
    (p : ℕ) × (t u : Testfs) × (get_inode 5 shelf ≡ some (p, t))
    × (put_inode p t ≡ some (tt, u))
    × ((n : ℕ) → refs u n ≡ refs shelf n)
    × (u.dev ≡ shelf.dev)
put_inode-get_example =
    put_inode-get shelf 5 shelf-IsCached (omega arith) (omega arith) small_counts
