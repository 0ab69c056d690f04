-- ===== src/Fs/Dirent/Entries.antt =====
-- The bytes of a directory as a list of entries, and how `testfs_next_dirent` of fs/dir.c reads them.
use ece344_os.Prelude.{
  ℕ, suc, ◌+◌, ◌*◌, ◌^◌, ◌≤◌, ◌<◌, ◌≡◌, ◌≢◌, ltb, ◌&&◌, List, [], ◌∷◌, Option, none, some, length,
  same, arith, ◌∙◌,
}
use ece344_os.Fs.Errno.{Ret, num}
use ece344_os.Fs.Layout.{Buffer, zeros, get_int}
use ece344_os.Fs.State.{Dinode, Inode, Testfs}
use ece344_os.Fs.ReadWrite.{read_data}
use ece344_os.Fs.ReadWrite.Physical.{IsOnDevice}
use ece344_os.Fs.ReadWrite.Read.{file_byte, reads, available, read_data-Reads}
use ece344_os.Fs.Create.{i_dir}
use ece344_os.Fs.Dirent.{Dirent, next_dirent, same_name, string_bytes, is_named}

-- An entry: the bit pattern of its inode number, which is negative where the entry is not in use,
-- and its name.
pub record Entry : Type 0 where
  pub inode_nr : ℕ
  pub name : List ℕ

-- No byte of a string is 0.
abbrev pub IsText : List ℕ → Type 0
IsText [] = Unit
IsText (c ∷ cs) = (c ≢ 0) × IsText cs

-- The size of an entry: the two numbers, and the name with its final 0.
abbrev pub entry_size : Entry → ℕ
entry_size e = 9 + length e.name

-- The bytes of the file from an offset on.
abbrev pub from : (ℕ → Buffer) → Dinode → ℕ → Buffer
from c d offset k = file_byte c d (offset + k)

-- The bytes at an offset are those of an entry.
pub record Holds (c : ℕ → Buffer) (d : Dinode) (offset : ℕ) (e : Entry) : Type 0 where
  pub len : get_int (from c d offset) 0 ≡ length e.name + 1
  pub nr : get_int (from c d offset) 1 ≡ e.inode_nr
  pub text : (k : ℕ) → k ≤ length e.name → file_byte c d (offset + 8 + k) ≡ string_bytes e.name k
  pub clean : IsText e.name

-- The entries from an offset to the end of the directory.
abbrev pub Lists : (ℕ → Buffer) → Dinode → ℕ → List Entry → Type 0
Lists c d offset [] = offset ≡ d.i_size
Lists c d offset (e ∷ es) = Holds c d offset e × Lists c d (offset + entry_size e) es

-- An inode in memory that is a directory with these entries.
pub record IsDirectory (s : Testfs) (p : ℕ) (i : Inode) (es : List Entry) : Type 0 where
  pub loaded : s.inodes p ≡ some i
  pub type : i.din.i_type ≡ i_dir
  pub placed : IsOnDevice s i.din
  pub small : i.din.i_size < 2 ^ 31
  pub listed : Lists s.dev.content i.din 0 es

pub Lists-le :
    (c : ℕ → Buffer) (d : Dinode) (offset : ℕ) (es : List Entry)
    → Lists c d offset es
    → offset + 9 * length es ≤ d.i_size
Lists-le c d offset [] h = omega arith
Lists-le c d offset (e ∷ es) h = omega (arith, Lists-le c d (offset + entry_size e) es h.1)

-- The struct that stands for an entry.
pub record Represents (d : Dirent) (e : Entry) : Type 0 where
  pub len : d.d_name_len ≡ length e.name + 1
  pub nr : d.d_inode_nr ≡ e.inode_nr
  pub text : (k : ℕ) → k ≤ length e.name → d.d_name k ≡ string_bytes e.name k
  pub clean : IsText e.name

pub get_int-agree :
    (b b' : Buffer) (i : ℕ) → ((k : ℕ) → k < 4 * i + 4 → b k ≡ b' k) → get_int b i ≡ get_int b' i
unfolding get_int
get_int-agree b b' i h = ground (
  arith,
  h (4 * i) (omega arith),
  h (4 * i + 1) (omega arith),
  h (4 * i + 2) (omega arith),
  h (4 * i + 3) (omega arith),
)

-- What reading at an entry gives, and what it gives at the end.
pub data Steps (s : Testfs) (offset : ℕ) (e : Entry) (r : Option (Option (Dirent × ℕ) × Testfs))
    : Type 0 where
  steps :
      (d : Dirent)
      → r ≡ some (some (d, offset + entry_size e), s)
      → Represents d e
      → Steps s offset e r

-- A read inside the file.
data Window (s : Testfs) (d : Dinode) (start n : ℕ) (r : Option ((Ret × Buffer) × Testfs))
    : Type 0 where
  window :
      (out : Buffer)
      → r ≡ some ((num n, out), s)
      → ((k : ℕ) → k < n → out k ≡ file_byte s.dev.content d (start + k))
      → Window s d start n r

read_data-Window :
    (s : Testfs) (p : ℕ) (i : Inode) (es : List Entry) (start n : ℕ)
    → IsDirectory s p i es
    → start + n ≤ i.din.i_size
    → 0 < n
    → Window s i.din start n (read_data p zeros start n s)
unfolding available
read_data-Window s p i es start n v le pos =
    let small = v.small in
    let e : available i.din start n ≡ n = ground arith in
    elim (read_data-Reads s p i start n zeros v.loaded v.placed (omega arith) (omega arith)
      (omega arith) (omega arith)) [
        | reads out r mid before after ↦
            window out (ground (arith, r, e)) (λ k h. mid k (omega arith) (ground (arith, e)))
      ]

-- Reading at an entry gives the entry and the offset behind it, and changes nothing.
pub next_dirent-Steps :
    (s : Testfs) (p : ℕ) (i : Inode) (es : List Entry) (offset : ℕ) (e : Entry)
    → IsDirectory s p i es
    → Holds s.dev.content i.din offset e
    → offset + entry_size e ≤ i.din.i_size
    → Steps s offset e (next_dirent p offset s)
unfolding next_dirent
next_dirent-Steps s p i es offset e v h le =
    let size_lt = v.small in
    elim (read_data-Window s p i es offset 8 v (omega arith) (omega arith)) [
      | window head r₁ hd ↦
          elim (read_data-Window s p i es (offset + 8) (length e.name + 1) v (omega arith)
            (omega arith)) [
              | window text r₂ tx ↦
                  let len : get_int head 0 ≡ length e.name + 1 =
                    get_int-agree head (from s.dev.content i.din offset) 0
                      (λ k hk. hd k (omega arith))
                    ∙ h.len in
                  let nr : get_int head 1 ≡ e.inode_nr =
                    get_int-agree head (from s.dev.content i.din offset) 1
                      (λ k hk. hd k (omega arith))
                    ∙ h.nr in
                  steps
                    (record {
                      d_name_len = get_int head 0;
                      d_inode_nr = get_int head 1;
                      d_name = text;
                    })
                    (ground (arith, v.loaded, v.type, r₁, r₂, len, nr))
                    (record {
                      len = len;
                      nr = nr;
                      text = λ k hk. tx k (omega arith) ∙ h.text k hk;
                      clean = h.clean;
                    })
            ]
    ]

-- Reading at the end gives nothing.
pub next_dirent-end :
    (s : Testfs) (p : ℕ) (i : Inode) (es : List Entry)
    → IsDirectory s p i es
    → next_dirent p i.din.i_size s ≡ some (none, s)
unfolding next_dirent
next_dirent-end s p i es v = ground (arith, v.loaded, v.type, v.small)

same_name-eq :
    (k : ℕ) (d : Dirent) (text name : List ℕ)
    → d.d_name_len ≡ k + length text + 1
    → ((j : ℕ) → j ≤ length text → d.d_name (k + j) ≡ string_bytes text j)
    → IsText text
    → IsText name
    → same_name k d name ≡ some (same text name)
unfolding same_name string_bytes same
same_name-eq k d [] [] len h t u =
    let z : k + 0 ≡ k = omega arith in ground (arith, h 0 (omega arith), z)
same_name-eq k d [] (c ∷ cs) len h t u =
    let z : k + 0 ≡ k = omega arith in ground (arith, h 0 (omega arith), z)
same_name-eq k d (b ∷ bs) [] len h t u =
    let z : k + 0 ≡ k = omega arith in ground (arith, h 0 (omega arith), z)
same_name-eq k d (b ∷ bs) (c ∷ cs) len h t u =
    let z : k + 0 ≡ k = omega arith in
    let rest =
      same_name-eq (k + 1) d bs cs (omega arith)
        (λ j hj.
          let z' : k + 1 + j ≡ k + suc j = omega arith in
          ground (arith, h (suc j) (omega arith), z'))
        t.1 u.1 in
    ground (arith, h 0 (omega arith), z, rest)

-- The test for a name.
pub is_named-eq :
    (d : Dirent) (e : Entry) (name : List ℕ) (s : Testfs)
    → Represents d e
    → IsText name
    → is_named d name s ≡ some (ltb e.inode_nr (2 ^ 31) && same e.name name, s)
is_named-eq d e name s r t =
    let found =
      same_name-eq 0 d e.name name (omega (arith, r.len))
        (λ j hj. let z : 0 + j ≡ j = omega arith in ground (arith, r.text j hj, z)) r.clean t in
    ground (arith, found, r.nr)
