-- ===== src/Fs/Dirent/Lookup.antt =====
-- The walks over the entries of a directory (fs/dir.c) against the list of its entries.
use ece344_os.Prelude.{
  ℕ, zero, suc, ◌+◌, ◌/◌, ◌^◌, ◌<◌, ◌≡◌, Bool, ltb, ◌==◌, ◌&&◌, ◌||◌, not, if◌then◌else◌, List, [],
  ◌∷◌, some, length, same, arith,
}
use ece344_os.Fs.Errno.{Ret, num, err, enoent}
use ece344_os.Fs.State.{Inode, Testfs}
use ece344_os.Fs.Dirent.{name_loop, dir_name_to_inode_nr, Place, exists, reuse, behind, add_loop}
use ece344_os.Fs.Dirent.Entries.{
  Entry, entry_size, IsText, Lists, Lists-le, IsDirectory, steps, next_dirent-Steps,
  next_dirent-end, is_named-eq,
}

-- An entry in use.
abbrev pub live : Entry → Bool
live e = ltb e.inode_nr (2 ^ 31)

-- The inode number of the first entry in use with a name.
unfoldable pub find_name : List Entry → List ℕ → Ret
find_name [] name = err enoent
find_name (e ∷ es) name = if live e && same e.name name then num e.inode_nr else find_name es name

-- Where a new entry goes: `exists` if the name is met first, else the first unused entry with a name of
-- the same length, else the end.
unfoldable pub place_of : ℕ → List Entry → List ℕ → Place
place_of offset [] name = behind offset
place_of offset (e ∷ es) name =
    let rest = place_of (offset + entry_size e) es name in
    if live e && same e.name name
    then exists
    else if live e || not (length e.name == length name)
    then rest
    else reuse offset

module _ (s : Testfs) (p : ℕ) (i : Inode) (all : List Entry) (name : List ℕ)
    (v : IsDirectory s p i all) (t : IsText name) where
  name_loop-eq :
      (n offset : ℕ) (es : List Entry)
      → Lists s.dev.content i.din offset es
      → length es < n
      → name_loop n p name offset s ≡ some (find_name es name, s)
  unfolding name_loop find_name
  name_loop-eq zero offset es h fuel = elim fuel [ ]
  name_loop-eq (suc n) offset [] h fuel = rw h (ground (arith, next_dirent-end s p i all v))
  name_loop-eq (suc n) offset (e ∷ es) h fuel =
      elim (next_dirent-Steps s p i all offset e v h.0
        (omega (arith, Lists-le s.dev.content i.din (offset + entry_size e) es h.1))) [
          | steps d r rep ↦ ground (
            arith,
            r,
            is_named-eq d e name s rep t,
            rep.nr,
            name_loop-eq n (offset + entry_size e) es h.1 (omega arith),
          )
        ]

  pub add_loop-eq :
      (n offset : ℕ) (es : List Entry)
      → Lists s.dev.content i.din offset es
      → length es < n
      → add_loop n p name offset s ≡ some (place_of offset es name, s)
  unfolding add_loop place_of
  add_loop-eq zero offset es h fuel = elim fuel [ ]
  add_loop-eq (suc n) offset [] h fuel = rw h (ground (arith, next_dirent-end s p i all v))
  add_loop-eq (suc n) offset (e ∷ es) h fuel =
      elim (next_dirent-Steps s p i all offset e v h.0
        (omega (arith, Lists-le s.dev.content i.din (offset + entry_size e) es h.1))) [
          | steps d r rep ↦ ground (
            arith,
            r,
            is_named-eq d e name s rep t,
            rep.nr,
            rep.len,
            add_loop-eq n (offset + entry_size e) es h.1 (omega arith),
          )
        ]

-- For a directory in memory whose bytes on the device are a list of entries, and a name without a byte
-- 0, `testfs_dir_name_to_inode_nr` ends, changes nothing, and returns the inode number of the first
-- entry in use of that name, or -ENOENT if there is none.
pub dir_name_to_inode_nr-eq :
    (s : Testfs) (p : ℕ) (i : Inode) (es : List Entry) (name : List ℕ)
    → IsDirectory s p i es
    → IsText name
    → dir_name_to_inode_nr p name s ≡ some (find_name es name, s)
unfolding dir_name_to_inode_nr
dir_name_to_inode_nr-eq s p i es name v t = ground (
  arith,
  v.loaded,
  v.type,
  name_loop-eq s p i es name v t (i.din.i_size / 8 + 1) 0 es v.listed
      (omega (arith, Lists-le s.dev.content i.din 0 es v.listed)),
)
