-- ===== src/Files/Access.antt =====
-- How `pathOpen` chooses the mode of an open (src/storage/FileDescriptor.cpp: `getOpenMode`,
-- `getRwType` and the access mode). The masks are constants of WASI.
use Prim.Native.Nat.{bit_and}
use faasm.Prelude.{
  ℕ, ◌%◌, ◌^◌, ◌≡◌, ◌≢◌, Bool, true, false, not, ◌&&◌, List, Result, ok, err, ◌==◌, if◌then◌else◌,
  arith,
}
use faasm.Prelude.Bits.{bit_and_of_bit_and-le}
use faasm.Files.Descriptors.{FileDescriptor, child}

pub record Masks : Type 0 where
  pub rights_read : ℕ
  pub rights_write : ℕ
  pub o_creat : ℕ
  pub o_directory : ℕ
  pub o_trunc : ℕ
  pub o_excl : ℕ

pub data OpenMode : Type 0 where
  create_mode directory_mode excl_mode trunc_mode plain_mode : OpenMode

pub data ReadWriteType : Type 0 where
  read_only read_write write_only no_read_write custom : ReadWriteType

pub data OpenError : Type 0 where
  unknown_open_mode unknown_access_mode : OpenError

-- O_RDONLY, O_RDWR and O_WRONLY.
pub data AccessMode : Type 0 where
  rdonly rdwr wronly : AccessMode

abbrev pub has : ℕ → ℕ → Bool
has flags mask = not (bit_and flags mask == 0)

-- The argument of the source is a `uint16_t`.
unfoldable pub get_open_mode : Masks → ℕ → Result OpenError OpenMode
get_open_mode m open_flags =
    if has open_flags m.o_creat
    then ok create_mode
    else if has open_flags m.o_directory
    then ok directory_mode
    else if has open_flags m.o_trunc
    then ok trunc_mode
    else if has open_flags m.o_excl
    then ok excl_mode
    else if open_flags == 0
    then ok plain_mode
    else err unknown_open_mode

get_rw_type : Masks → ℕ → ReadWriteType
get_rw_type m rights =
    let reads = has rights m.rights_read in
    let writes = has rights m.rights_write in
    if reads && writes
    then read_write
    else if reads
    then read_only
    else if not reads && writes
    then write_only
    else if rights == 0
    then no_read_write
    else custom

-- The access mode, and whether the open is for writing. O_RDONLY is 0.
abbrev access_of : OpenMode → ReadWriteType → Result OpenError (AccessMode × Bool)
access_of directory_mode _ = ok (rdonly, false)
access_of _ read_write = ok (rdwr, true)
access_of _ write_only = ok (wronly, true)
access_of _ read_only = ok (rdonly, false)
access_of _ no_read_write = ok (rdonly, false)
access_of _ custom = err unknown_access_mode

abbrev with_mode : ReadWriteType → Result OpenError OpenMode → Result OpenError (AccessMode × Bool)
with_mode t (err e) = err e
with_mode t (ok mode) = access_of mode t

unfoldable pub open_access : Masks → ℕ → ℕ → Result OpenError (AccessMode × Bool)
unfolding get_open_mode get_rw_type
open_access m rights open_flags =
    with_mode (get_rw_type m rights) (get_open_mode m (open_flags % 2 ^ 16))

rw_type-no_write :
    (m : Masks) (rights : ℕ)
    → bit_and rights m.rights_write ≡ 0
    → (get_rw_type m rights ≢ read_write) × (get_rw_type m rights ≢ write_only)
unfolding get_rw_type
rw_type-no_write m rights h = (λ e. ground arith, λ e. ground arith)

access-no_write :
    (mode : OpenMode) (t : ReadWriteType) {a : AccessMode} {w : Bool}
    → t ≢ read_write
    → t ≢ write_only
    → access_of mode t ≡ ok (a, w)
    → (a ≡ rdonly) × (w ≡ false)
access-no_write mode t h h' e = ground arith

-- Under a directory that lets no right to write be inherited, the access mode of an open is O_RDONLY,
-- whatever rights and flags it is given, unless there is none.
pub open_access-child :
    (m : Masks) (is_path_shared : List ℕ → Bool) (is_dot : List ℕ → Bool)
    (join : List ℕ → List ℕ → List ℕ) (root : FileDescriptor) (relative_path : List ℕ)
    (base inheriting open_flags : ℕ) {a : AccessMode} {w : Bool}
    → bit_and root.rights_inheriting m.rights_write ≡ 0
    → open_access m
        (child is_path_shared is_dot join root relative_path base inheriting).rights_base
        open_flags
      ≡ ok (a, w)
    → (a ≡ rdonly) × (w ≡ false)
unfolding open_access
open_access-child m is_path_shared is_dot join root relative_path base inheriting open_flags h e =
    let rights = bit_and base root.rights_inheriting in
    let none_left : bit_and rights m.rights_write ≡ 0 =
      omega (arith, bit_and_of_bit_and-le base root.rights_inheriting m.rights_write, h) in
    let (p, q) = rw_type-no_write m rights none_left in
    by_mode (get_open_mode m (open_flags % 2 ^ 16)) (get_rw_type m rights) p q e
  where
    by_mode :
        (o : Result OpenError OpenMode) (t : ReadWriteType) {a : AccessMode} {w : Bool}
        → t ≢ read_write
        → t ≢ write_only
        → with_mode t o ≡ ok (a, w)
        → (a ≡ rdonly) × (w ≡ false)
    by_mode (err x) t p q e = cc
    by_mode (ok mode) t p q e = access-no_write mode t p q e
