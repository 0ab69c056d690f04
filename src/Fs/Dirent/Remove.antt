-- ===== src/Fs/Dirent/Remove.antt =====
-- `testfs_remove_dirent` of fs/dir.c for an entry that there is.
use ece344_os.Prelude.{
  ℕ, zero, suc, ◌+◌, ◌-◌, ◌/◌, ◌≤◌, ◌<◌, ◌≡◌, refl, ◌∙◌, Bool, true, false, ltb, ◌&&◌, List, [],
  ◌∷◌, ◌++◌, Option, some, length, length-append, same, same_self, arith, inl, inr, Bool-cases, ◌⊎◌,
}
use ece344_os.Fs.Errno.{Ret, num, err, enoent}
use ece344_os.Fs.Layout.{Buffer, set_int}
use ece344_os.Fs.State.{Dinode, Inode, Testfs}
use ece344_os.Fs.ReadWrite.Read.{file_byte}
use ece344_os.Fs.ReadWrite.Overwrite.{IsReady, writes, grown, write_data-Writes}
use ece344_os.Fs.ReadWrite.ReadBack.{grown-file_byte, written-IsOnDevice}
use ece344_os.Fs.Dirent.{
  Dirent, invalid_inode_nr, dirent_bytes, is_dots, remove_dirent_allowed, remove_found, remove_loop,
  remove_dirent, dir_name_to_inode_nr,
}
use ece344_os.Fs.Dirent.Entries.{
  Entry, entry_size, IsText, Holds, Lists, Lists-le, IsDirectory, Represents, steps,
  next_dirent-Steps, is_named-eq,
}
use ece344_os.Fs.Dirent.Lookup.{live, find_name, dir_name_to_inode_nr-eq}
use ece344_os.Fs.Dirent.Add.{struct, Holds-written, Holds-agree, Lists-agree}

-- The entry with its mark for one that is not in use.
abbrev pub unused : Entry → Entry
unused e = record e { inode_nr = invalid_inode_nr }

-- The bytes of entries.
abbrev pub size_of : List Entry → ℕ
size_of [] = 0
size_of (e ∷ es) = entry_size e + size_of es

-- Only the numbers and the name of the struct are written.
dirent_bytes-agree :
    (d d' : Dirent) (k : ℕ)
    → d.d_name_len ≡ d'.d_name_len
    → d.d_inode_nr ≡ d'.d_inode_nr
    → ((j : ℕ) → j < d.d_name_len → d.d_name j ≡ d'.d_name j)
    → k < 8 + d.d_name_len
    → dirent_bytes d k ≡ dirent_bytes d' k
unfolding dirent_bytes set_int
dirent_bytes-agree d d' k len nr text h = elim (Bool-cases (ltb k 8)) [
  | inl y ↦ ground (arith, y, len, nr)
  | inr n ↦ let t = text (k - 8 + 0) (ground arith) in ground (arith, n, len, t)
]

-- An entry in the middle is replaced by one of its size.
Lists-replaced :
    (c c' : ℕ → Buffer) (d d' : Dinode) (offset : ℕ) (pre : List Entry) (x y : Entry)
    (post : List Entry)
    → Lists c d offset (pre ++ (x ∷ post))
    → entry_size y ≡ entry_size x
    → Holds c' d' (offset + size_of pre) y
    → ((k : ℕ)
        → k < d.i_size
        → (k < offset + size_of pre) ⊎ (offset + size_of pre + entry_size x ≤ k)
        → file_byte c' d' k ≡ file_byte c d k)
    → d'.i_size ≡ d.i_size
    → Lists c' d' offset (pre ++ (y ∷ post))
Lists-replaced c c' d d' offset [] x y post v fit new old sz =
    let z : offset + 0 ≡ offset = omega arith in
    let next : offset + entry_size y ≡ offset + entry_size x = omega arith in
    (
      rw z at new,
      rw next (
          Lists-agree c c' d d' (offset + entry_size x) post
            (λ k lo hi. old k hi (inr (omega arith))) sz v.1),
    )
Lists-replaced c c' d d' offset (e ∷ pre) x y post v fit new old sz =
    let z : offset + size_of (e ∷ pre) ≡ offset + entry_size e + size_of pre = omega arith in
    let le = Lists-le c d (offset + entry_size e) (pre ++ (x ∷ post)) v.1 in
    (
      Holds-agree c c' d d' offset e (λ k lo hi. old k (omega arith) (inl (omega arith))) v.0,
      Lists-replaced c c' d d' (offset + entry_size e) pre x y post v.1 fit (rw z at new)
          (λ k hk out.
            old k hk (elim out [ inl a ↦ inl (omega arith) | inr a ↦ inr (omega arith) ]))
          sz,
    )

-- The loop finds the entry.
remove_loop-eq :
    (s : Testfs) (p : ℕ) (i : Inode) (all : List Entry) (junk : ℕ → Bool) (x : Entry)
    (post : List Entry)
    → IsDirectory s p i all
    → IsText x.name
    → live x ≡ true
    → (n offset : ℕ) (pre : List Entry) → Lists s.dev.content i.din offset (pre ++ (x ∷ post))
    → find_name pre x.name ≡ err enoent
    → length pre < n
    → (d : Dirent) × Represents d x
      × (remove_loop junk n p x.name offset s ≡ remove_found junk p d (offset + size_of pre) s)
unfolding remove_loop find_name
remove_loop-eq s p i all junk x post v t l zero offset pre h absent fuel = elim fuel [ ]
remove_loop-eq s p i all junk x post v t l (suc n) offset [] h absent fuel =
    elim (next_dirent-Steps s p i all offset x v h.0
      (omega (arith, Lists-le s.dev.content i.din (offset + entry_size x) post h.1))) [
        | steps d r rep ↦
            let z : offset + 0 ≡ offset = omega arith in
            (d, rep, ground (arith, r, is_named-eq d x x.name s rep t, l, same_self x.name, z))
      ]
remove_loop-eq s p i all junk x post v t l (suc n) offset (e ∷ pre) h absent fuel =
    elim (Bool-cases (live e && same e.name x.name)) [
      | inl a ↦ absurd (ground (arith, a, absent))
      | inr a ↦
          elim (next_dirent-Steps s p i all offset e v h.0 (
            omega (
              arith,
              Lists-le s.dev.content i.din (offset + entry_size e) (pre ++ (x ∷ post)) h.1,
            ))) [
              | steps d r rep ↦
                  let (d', rep', q) =
                    remove_loop-eq s p i all junk x post v t l n (offset + entry_size e) pre h.1
                      (ground (arith, a, absent)) (omega arith) in
                  let z : offset + size_of (e ∷ pre) ≡ offset + entry_size e + size_of pre =
                    omega arith in
                  (d', rep', ground (arith, r, is_named-eq d e x.name s rep t, a, q, z))
            ]
    ]

-- The mark hides the entry.
find_name-unused :
    (pre : List Entry) (x : Entry) (post : List Entry)
    → find_name pre x.name ≡ err enoent
    → find_name (pre ++ (unused x ∷ post)) x.name ≡ find_name post x.name
unfolding find_name
find_name-unused [] x post absent = ground arith
find_name-unused (e ∷ pre) x post absent = elim (Bool-cases (live e && same e.name x.name)) [
  | inl a ↦ absurd (ground (arith, a, absent))
  | inr a ↦ ground (arith, a, find_name-unused pre x post (ground (arith, a, absent)))
]

find_name-others :
    (pre : List Entry) (x : Entry) (post : List Entry) (other : List ℕ)
    → same x.name other ≡ false
    → find_name (pre ++ (unused x ∷ post)) other ≡ find_name (pre ++ (x ∷ post)) other
unfolding find_name
find_name-others [] x post other ne = ground (arith, ne)
find_name-others (e ∷ pre) x post other ne = ground (arith, find_name-others pre x post other ne)

Lists-place :
    (c : ℕ → Buffer) (d : Dinode) (offset : ℕ) (pre : List Entry) (x : Entry) (post : List Entry)
    → Lists c d offset (pre ++ (x ∷ post))
    → offset + size_of pre + entry_size x ≤ d.i_size
Lists-place c d offset [] x post v = omega (arith, Lists-le c d (offset + entry_size x) post v.1)
Lists-place c d offset (e ∷ pre) x post v =
    omega (arith, Lists-place c d (offset + entry_size e) pre x post v.1)

-- What removing an entry does: it returns the inode number, the directory has the entry as one that is
-- not in use, and no other name is found in another way.
pub data Removes (p : ℕ) (pre : List Entry) (x : Entry) (post : List Entry)
    (r : Option (Ret × Testfs)) : Type 0 where
  removes :
      (u : Testfs) (i : Inode)
      → r ≡ some (num x.inode_nr, u)
      → IsDirectory u p i (pre ++ (unused x ∷ post))
      → dir_name_to_inode_nr p x.name u ≡ some (find_name post x.name, u)
      → ((name : List ℕ)
          → IsText name
          → same x.name name ≡ false
          → dir_name_to_inode_nr p name u ≡ some (find_name (pre ++ (x ∷ post)) name, u))
      → Removes p pre x post r

transported :
    {p : ℕ} {pre post : List Entry} {x : Entry} {r r' : Option (Ret × Testfs)}
    → Removes p pre x post r
    → r' ≡ r
    → Removes p pre x post r'
transported (removes u i h dir found others) q = removes u i (q ∙ h) dir found others

remove_found-Removes :
    (s t : Testfs) (p : ℕ) (i : Inode) (d : Dirent) (pre : List Entry) (x : Entry)
    (post : List Entry) (junk : ℕ → Bool)
    → Represents d x
    → remove_dirent_allowed x.inode_nr s ≡ some (num 0, t)
    → IsDirectory t p i (pre ++ (x ∷ post))
    → IsReady t p i (size_of pre) (entry_size x)
    → find_name pre x.name ≡ err enoent
    → size_of pre + entry_size x ≤ i.din.i_size
    → Removes p pre x post (remove_found junk p d (size_of pre) s)
unfolding remove_found
remove_found-Removes s t p i d pre x post junk rep allowed v ready absent le =
    let at = size_of pre in
    let small = v.small in
    let front : 0 + at ≡ at = omega arith in
    let gone : Dirent = record d { d_inode_nr = invalid_inode_nr } in
    let z : 8 + d.d_name_len ≡ entry_size x = omega (arith, rep.len) in
    elim (write_data-Writes t p i at (entry_size x) (dirent_bytes gone) junk ready (omega arith)
      (omega arith) (omega arith) (omega arith)) [
        | writes dev inodes r here others sz blocks new before after rest ↦
            let u : Testfs = record t { dev = dev; inodes = inodes } in
            let i' : Inode = record i { din = grown i.din (at + entry_size x); dirty = true } in
            let back : (k : ℕ) → file_byte dev.content i'.din k ≡ file_byte dev.content i.din k =
              λ k. grown-file_byte dev.content i.din (at + entry_size x) k in
            let dir : IsDirectory u p i' (pre ++ (unused x ∷ post)) = record {
              loaded = here;
              type = v.type;
              placed =
                  written-IsOnDevice t p i at (entry_size x) (at + entry_size x) dev inodes ready sz
                    blocks rest;
              small = ground arith;
              listed =
                  Lists-replaced t.dev.content dev.content i.din i'.din 0 pre x (unused x) post
                    v.listed refl
                    (rw front (
                      Holds-written dev.content i'.din at (unused x)
                        (λ k hk.
                          let minus : at + k - at ≡ k = omega arith in
                          back (at + k)
                          ∙ new (at + k) (omega arith) (omega arith)
                          ∙ rw minus (
                              dirent_bytes-agree gone (struct (unused x)) k rep.len refl
                                (λ j hj. rep.text j (omega (arith, rep.len)))
                                (omega (arith, rep.len))))
                        rep.clean (omega arith) (omega arith)))
                    (λ k hk out. back k ∙ elim out [
                      | inl a ↦ before k (omega arith) (omega arith)
                      | inr a ↦ after k (omega arith) (omega arith)
                    ])
                    (ground arith);
            } in
            removes u i' (ground (arith, rep.nr, allowed, z, r)) dir
              (dir_name_to_inode_nr-eq u p i' (pre ++ (unused x ∷ post)) x.name dir rep.clean
                ∙ ground (arith, find_name-unused pre x post absent))
              (λ name clean ne.
                dir_name_to_inode_nr-eq u p i' (pre ++ (unused x ∷ post)) name dir clean
                ∙ ground (arith, find_name-others pre x post name ne))
      ]

-- For a directory in memory whose bytes on the device are a list of entries, and a name other than "."
-- and ".." that the entry `x` is the first in use to have, where `testfs_remove_dirent_allowed` allows it,
-- the directory still has these entries then, and the bytes of `x` have blocks: `testfs_remove_dirent`
-- ends and returns the inode number. The entry is left in its place as one that is not in use, the name
-- is found from then on only in a later entry, and every other name is found as before.
pub remove_dirent-Removes :
    (s t : Testfs) (p : ℕ) (i i' : Inode) (pre : List Entry) (x : Entry) (post : List Entry)
    (junk : ℕ → Bool)
    → IsDirectory s p i (pre ++ (x ∷ post))
    → IsText x.name
    → is_dots x.name ≡ false
    → find_name pre x.name ≡ err enoent
    → live x ≡ true
    → remove_dirent_allowed x.inode_nr s ≡ some (num 0, t)
    → IsDirectory t p i' (pre ++ (x ∷ post))
    → IsReady t p i' (size_of pre) (entry_size x)
    → Removes p pre x post (remove_dirent junk p x.name s)
unfolding remove_dirent
remove_dirent-Removes s t p i i' pre x post junk v clean dots absent l allowed w ready =
    let front : 0 + size_of pre ≡ size_of pre = omega arith in
    let (d, rep, q) =
      remove_loop-eq s p i (pre ++ (x ∷ post)) junk x post v clean l (i.din.i_size / 8 + 1) 0 pre
        v.listed absent
        (omega (
          arith,
          Lists-le s.dev.content i.din 0 (pre ++ (x ∷ post)) v.listed,
          length-append pre (x ∷ post),
        )) in
    transported
      (remove_found-Removes s t p i' d pre x post junk rep allowed w ready absent
        (omega (arith, Lists-place t.dev.content i'.din 0 pre x post w.listed)))
      (ground (arith, v.loaded, dots, q, front))
