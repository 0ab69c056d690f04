-- ===== src/Fs/Dirent/Add.antt =====
-- `testfs_add_dirent` of fs/dir.c where the bytes of the new entry have blocks already.
use ece344_os.Prelude.{
  ℕ, ◌+◌, ◌-◌, ◌/◌, ◌%◌, ◌^◌, ◌≤◌, ◌<◌, ◌≡◌, refl, sym, ◌∙◌, Bool, true, false, ◌==◌, ◌&&◌, ◌||◌,
  not, if◌then◌else◌, List, [], ◌∷◌, Option, some, length, same, same_self, arith, inl, inr,
  Bool-cases, ◌⊎◌,
}
use ece344_os.Fs.Errno.{Ret, num, err, enoent}
use ece344_os.Fs.Layout.{Buffer, byte_of, set_int}
use ece344_os.Fs.Words.{get_int-words}
use ece344_os.Fs.State.{Dinode, Inode, Testfs}
use ece344_os.Fs.ReadWrite.Read.{file_byte}
use ece344_os.Fs.ReadWrite.Overwrite.{IsReady, writes, grown, write_data-Writes}
use ece344_os.Fs.ReadWrite.ReadBack.{grown-file_byte, written-IsOnDevice}
use ece344_os.Fs.Dirent.{
  Dirent, string_bytes, dirent_bytes, write_dirent, reuse, behind, add_dirent, dir_name_to_inode_nr,
}
use ece344_os.Fs.Dirent.Entries.{
  Entry, entry_size, IsText, from, Holds, Lists, Lists-le, IsDirectory, get_int-agree,
}
use ece344_os.Fs.Dirent.Lookup.{live, find_name, place_of, add_loop-eq, dir_name_to_inode_nr-eq}

-- The struct that is written for an entry.
abbrev pub struct : Entry → Dirent
struct e = record {
  d_name_len = length e.name + 1;
  d_inode_nr = e.inode_nr;
  d_name = string_bytes e.name;
}

abbrev words : Entry → ℕ → ℕ
words e i = if i == 0 then length e.name + 1 else e.inode_nr

pub dirent_bytes-head :
    (e : Entry) (k : ℕ) → k < 8 → dirent_bytes (struct e) k ≡ byte_of (words e (k / 4)) (k % 4)
unfolding dirent_bytes set_int
dirent_bytes-head e k h = ground arith

dirent_bytes-text :
    (e : Entry) (k : ℕ)
    → k ≤ length e.name
    → dirent_bytes (struct e) (8 + k) ≡ string_bytes e.name k
unfolding dirent_bytes
dirent_bytes-text e k h = let z : 8 + k - 8 + 0 ≡ k = omega arith in ground (arith, z)

-- The bytes of an entry, written at an offset, are that entry.
pub Holds-written :
    (c : ℕ → Buffer) (d : Dinode) (offset : ℕ) (e : Entry)
    → ((k : ℕ) → k < entry_size e → file_byte c d (offset + k) ≡ dirent_bytes (struct e) k)
    → IsText e.name
    → length e.name + 1 < 2 ^ 32
    → e.inode_nr < 2 ^ 32
    → Holds c d offset e
Holds-written c d offset e h clean small nr = record {
  len =
      get_int-words (words e) (from c d offset) 0 small
        (λ k hk. h k (omega arith) ∙ dirent_bytes-head e k (omega arith));
  nr =
      get_int-words (words e) (from c d offset) 1 nr
        (λ k hk. h k (omega arith) ∙ dirent_bytes-head e k (omega arith));
  text = λ k hk.
      let z : offset + 8 + k ≡ offset + (8 + k) = omega arith in
      rw z (h (8 + k) (omega arith) ∙ dirent_bytes-text e k hk);
  clean = clean;
}

-- An entry whose bytes have not changed is still there.
pub Holds-agree :
    (c c' : ℕ → Buffer) (d d' : Dinode) (offset : ℕ) (e : Entry)
    → ((k : ℕ) → offset ≤ k → k < offset + entry_size e → file_byte c' d' k ≡ file_byte c d k)
    → Holds c d offset e
    → Holds c' d' offset e
Holds-agree c c' d d' offset e h v = record {
  len =
      get_int-agree (from c' d' offset) (from c d offset) 0
        (λ k hk. h (offset + k) (omega arith) (omega arith))
      ∙ v.len;
  nr =
      get_int-agree (from c' d' offset) (from c d offset) 1
        (λ k hk. h (offset + k) (omega arith) (omega arith))
      ∙ v.nr;
  text = λ k hk. h (offset + 8 + k) (omega arith) (omega arith) ∙ v.text k hk;
  clean = v.clean;
}

pub Lists-agree :
    (c c' : ℕ → Buffer) (d d' : Dinode) (offset : ℕ) (es : List Entry)
    → ((k : ℕ) → offset ≤ k → k < d.i_size → file_byte c' d' k ≡ file_byte c d k)
    → d'.i_size ≡ d.i_size
    → Lists c d offset es
    → Lists c' d' offset es
Lists-agree c c' d d' offset [] h sz v = v ∙ sym sz
Lists-agree c c' d d' offset (e ∷ es) h sz v = (
  Holds-agree c c' d d' offset e
      (λ k lo hi. h k lo (omega (arith, Lists-le c d (offset + entry_size e) es v.1))) v.0,
  Lists-agree c c' d d' (offset + entry_size e) es (λ k lo hi. h k (omega arith) hi) sz v.1,
)

-- Whether an entry can be used again for a name.
abbrev pub usable : Entry → List ℕ → Bool
usable e name = not (live e || not (length e.name == length name))

-- The entries with a new one: in the place of the first unused one of its length, or at the end.
unfoldable pub added : List Entry → Entry → List Entry
added [] e = e ∷ []
added (x ∷ xs) e = let rest = added xs e in if usable x e.name then e ∷ xs else x ∷ rest

-- The offset of that place.
unfoldable pub added_at : ℕ → List Entry → List ℕ → ℕ
added_at offset [] name = offset
added_at offset (x ∷ xs) name =
    let rest = added_at (offset + entry_size x) xs name in if usable x name then offset else rest

le-added_at : (offset : ℕ) (es : List Entry) (name : List ℕ) → offset ≤ added_at offset es name
unfolding added_at
le-added_at offset [] name = omega arith
le-added_at offset (x ∷ xs) name = ground (arith, le-added_at (offset + entry_size x) xs name)

added_at-le :
    (c : ℕ → Buffer) (d : Dinode) (offset : ℕ) (es : List Entry) (name : List ℕ)
    → Lists c d offset es
    → added_at offset es name ≤ d.i_size
unfolding added_at
added_at-le c d offset [] name v = omega arith
added_at-le c d offset (x ∷ xs) name v = ground (
  arith,
  added_at-le c d (offset + entry_size x) xs name v.1,
  Lists-le c d (offset + entry_size x) xs v.1,
)

-- Where the name is not met, the loop ends at that place.
place_of-added_at :
    (c : ℕ → Buffer) (d : Dinode) (offset : ℕ) (es : List Entry) (name : List ℕ)
    → find_name es name ≡ err enoent
    → Lists c d offset es
    → (place_of offset es name ≡ reuse (added_at offset es name))
      ⊎ ((place_of offset es name ≡ behind (added_at offset es name))
          × (added_at offset es name ≡ d.i_size))
unfolding place_of added_at find_name
place_of-added_at c d offset [] name h v = inr (refl, v)
place_of-added_at c d offset (x ∷ xs) name h v = elim (Bool-cases (live x && same x.name name)) [
  | inl a ↦ absurd (ground (arith, a, h))
  | inr a ↦ elim (Bool-cases (usable x name)) [
    | inl b ↦ inl (ground (arith, a, b))
    | inr b ↦
        elim (place_of-added_at c d (offset + entry_size x) xs name (ground (arith, a, h)) v.1) [
          | inl r ↦ inl (ground (arith, a, b, r))
          | inr (r, e) ↦ inr (ground (arith, a, b, r), ground (arith, b, e))
        ]
  ]
]

-- The bytes of a directory with a new entry written at its place list the entries with the new one.
Lists-added :
    (c c' : ℕ → Buffer) (d d' : Dinode) (offset : ℕ) (es : List Entry) (e : Entry)
    → Lists c d offset es
    → ((k : ℕ)
        → k < entry_size e
        → file_byte c' d' (added_at offset es e.name + k) ≡ dirent_bytes (struct e) k)
    → ((k : ℕ)
        → k < d.i_size
        → (k < added_at offset es e.name) ⊎ (added_at offset es e.name + entry_size e ≤ k)
        → file_byte c' d' k ≡ file_byte c d k)
    → d'.i_size ≡ (grown d (added_at offset es e.name + entry_size e)).i_size
    → IsText e.name
    → length e.name + 1 < 2 ^ 32
    → e.inode_nr < 2 ^ 32
    → Lists c' d' offset (added es e)
unfolding added added_at
Lists-added c c' d d' offset [] e v new old sz clean small nr =
    (Holds-written c' d' offset e new clean small nr, ground (arith, v, sz))
Lists-added c c' d d' offset (x ∷ xs) e v new old sz clean small nr =
    elim (Bool-cases (usable x e.name)) [
      | inl b ↦
          let fit : length x.name ≡ length e.name = ground (arith, b) in
          let le = Lists-le c d (offset + entry_size x) xs v.1 in
          let here : offset + entry_size x ≡ offset + entry_size e = omega arith in
          let size : d'.i_size ≡ d.i_size = ground (arith, b, sz) in
          rw b (
            Holds-written c' d' offset e (λ k hk. ground (arith, b, new k hk)) clean small nr,
            rw here at (
                Lists-agree c c' d d' (offset + entry_size x) xs
                  (λ k lo hi. old k hi (inr (ground (arith, b)))) size v.1),
          )
      | inr b ↦
          let later = le-added_at (offset + entry_size x) xs e.name in
          let le = Lists-le c d (offset + entry_size x) xs v.1 in
          rw b (
            Holds-agree c c' d d' offset x
                (λ k lo hi. old k (omega arith) (inl (ground (arith, b)))) v.0,
            Lists-added c c' d d' (offset + entry_size x) xs e v.1
                (λ k hk. ground (arith, b, new k hk))
                (λ k hk out. old k hk (ground (arith, b, out))) (ground (arith, b, sz)) clean small
                nr,
          )
    ]

-- A name that was in no entry in use is found with the new entry, and no other name changes.
find_name-added :
    (es : List Entry) (e : Entry)
    → find_name es e.name ≡ err enoent
    → live e ≡ true
    → find_name (added es e) e.name ≡ num e.inode_nr
unfolding added find_name
find_name-added [] e h l = ground (arith, l, same_self e.name)
find_name-added (x ∷ xs) e h l = elim (Bool-cases (live x && same x.name e.name)) [
  | inl a ↦ absurd (ground (arith, a, h))
  | inr a ↦ elim (Bool-cases (usable x e.name)) [
    | inl b ↦ ground (arith, a, b, l, same_self e.name)
    | inr b ↦ ground (arith, a, b, find_name-added xs e (ground (arith, a, h)) l)
  ]
]

find_name-others :
    (es : List Entry) (e : Entry) (other : List ℕ)
    → same e.name other ≡ false
    → find_name (added es e) other ≡ find_name es other
unfolding added find_name
find_name-others [] e other ne = ground (arith, ne)
find_name-others (x ∷ xs) e other ne = elim (Bool-cases (usable x e.name)) [
  | inl b ↦ ground (arith, b, ne)
  | inr b ↦ ground (arith, b, find_name-others xs e other ne)
]

-- What adding an entry does: it returns the size of the entry, and the directory lists it.
pub data Adds (s : Testfs) (p : ℕ) (es : List Entry) (e : Entry) (r : Option (Ret × Testfs))
    : Type 0 where
  adds :
      (u : Testfs) (i : Inode)
      → r ≡ some (num (entry_size e), u)
      → IsDirectory u p i (added es e)
      → dir_name_to_inode_nr p e.name u ≡ some (num e.inode_nr, u)
      → ((name : List ℕ)
          → IsText name
          → same e.name name ≡ false
          → dir_name_to_inode_nr p name u ≡ some (find_name es name, u))
      → Adds s p es e r

-- The same for a run that gives the same.
transported :
    {s : Testfs} {p : ℕ} {es : List Entry} {e : Entry} {r r' : Option (Ret × Testfs)}
    → Adds s p es e r
    → r' ≡ r
    → Adds s p es e r'
transported (adds u i h dir found others) q = adds u i (q ∙ h) dir found others

write_dirent-Adds :
    (s : Testfs) (p : ℕ) (i : Inode) (es : List Entry) (e : Entry) (junk : ℕ → Bool)
    → IsDirectory s p i es
    → IsText e.name
    → find_name es e.name ≡ err enoent
    → e.inode_nr < 2 ^ 31
    → i.din.i_size + entry_size e < 2 ^ 31
    → IsReady s p i (added_at 0 es e.name) (entry_size e)
    → Adds s p es e
        (write_dirent junk p e.name (length e.name + 1) e.inode_nr (added_at 0 es e.name) s)
unfolding write_dirent
write_dirent-Adds s p i es e junk v clean absent nr room ready =
    let at = added_at 0 es e.name in
    let place_le = added_at-le s.dev.content i.din 0 es e.name v.listed in
    let z : 8 + (length e.name + 1) ≡ entry_size e = omega arith in
    elim (write_data-Writes s p i at (entry_size e) (dirent_bytes (struct e)) junk ready
      (omega arith) (omega arith) (omega arith) (omega arith)) [
        | writes dev inodes r here others sz blocks new before after rest ↦
            let u : Testfs = record s { dev = dev; inodes = inodes } in
            let i' : Inode = record i { din = grown i.din (at + entry_size e); dirty = true } in
            let dir : IsDirectory u p i' (added es e) = record {
              loaded = here;
              type = v.type;
              placed =
                  written-IsOnDevice s p i at (entry_size e) (at + entry_size e) dev inodes ready sz
                    blocks rest;
              small = ground arith;
              listed =
                  Lists-added s.dev.content dev.content i.din i'.din 0 es e v.listed
                    (λ k hk.
                      let back : at + k - at ≡ k = omega arith in
                      ground (
                        arith,
                        grown-file_byte dev.content i.din (at + entry_size e) (at + k),
                        new (at + k),
                        back,
                        hk,
                      ))
                    (λ k hk out.
                      let same_byte = grown-file_byte dev.content i.din (at + entry_size e) k in
                      elim out [
                        | inl a ↦ same_byte ∙ before k (omega arith) a
                        | inr a ↦ same_byte ∙ after k (omega arith) a
                      ])
                    refl clean (omega arith) (omega arith);
            } in
            adds u i' (ground (arith, nr, r, z)) dir
              (dir_name_to_inode_nr-eq u p i' (added es e) e.name dir clean
                ∙ ground (arith, find_name-added es e absent (ground arith)))
              (λ name t ne.
                dir_name_to_inode_nr-eq u p i' (added es e) name dir t
                ∙ ground (arith, find_name-others es e name ne))
      ]

-- For a directory in memory whose bytes on the device are a list of entries, a name without a byte 0
-- that no entry in use has, an inode number that an `int` holds, and blocks that exist already for the
-- bytes of the new entry: `testfs_add_dirent` ends and returns the size of the entry, and not 0 as its
-- comment says. The directory then lists it in the place of the first unused entry with a name of that
-- length, or else at the end; the name is found with the inode number, and every other name is found as
-- before.
pub add_dirent-Adds :
    (s : Testfs) (p : ℕ) (i : Inode) (es : List Entry) (e : Entry) (junk : ℕ → Bool)
    → IsDirectory s p i es
    → IsText e.name
    → find_name es e.name ≡ err enoent
    → e.inode_nr < 2 ^ 31
    → i.din.i_size + entry_size e < 2 ^ 31
    → IsReady s p i (added_at 0 es e.name) (entry_size e)
    → Adds s p es e (add_dirent junk p e.name e.inode_nr s)
unfolding add_dirent
add_dirent-Adds s p i es e junk v clean absent nr room ready =
    let loop =
      add_loop-eq s p i es e.name v clean (i.din.i_size / 8 + 1) 0 es v.listed
        (omega (arith, Lists-le s.dev.content i.din 0 es v.listed)) in
    let written = write_dirent-Adds s p i es e junk v clean absent nr room ready in
    elim (place_of-added_at s.dev.content i.din 0 es e.name absent v.listed) [
      | inl f ↦ transported written (ground (arith, v.loaded, v.type, loop, f))
      | inr (f, g) ↦ transported written (ground (arith, v.loaded, v.type, loop, f, g))
    ]
