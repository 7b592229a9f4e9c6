-- ===== src/Files/Dirents.antt =====
-- The directory iterator of a file descriptor and `copyDirentsToWasiBuffer`
-- (src/storage/FileDescriptor.cpp). The listing that `opendir` and `readdir` give is an argument, as
-- is the layout of `__wasi_dirent_t`, by the bytes of an entry. Bytes and path characters are
-- numbers.
use faasm.Prelude.{
  ℕ, zero, suc, ◌+◌, ◌-◌, Bool, true, false, not, ◌&&◌, Option, none, some, List, [], ◌++◌, Result,
  ok, err, ltb, leb, ◌==◌, if◌then◌else◌, length, get_elem?,
}

pub record DirEnt : Type 0 where
  pub next : ℕ
  pub ino : ℕ
  pub kind : ℕ
  pub path : List ℕ

pub data IterError : Type 0 where
  open_dir_failed not_started at_zero past_end out_of_fuel : IterError

pub record Iter : Type 0 where
  pub dir_contents_loaded : Bool
  pub dir_contents_idx : ℕ
  pub dir_contents : List DirEnt

abbrev pub iter_reset : Iter → Iter
iter_reset it = record { dir_contents_loaded = false; dir_contents_idx = 0; dir_contents = [] }

-- `loadDirContents` appends the entries.
unfoldable pub load_dir_contents : Option (List DirEnt) → Iter → Result IterError Iter
load_dir_contents none it = err open_dir_failed
load_dir_contents (some entries) it =
    ok (record it { dir_contents_loaded = true; dir_contents = it.dir_contents ++ entries })

unfoldable pub iter_back : Iter → Result IterError Iter
iter_back it =
    if not it.dir_contents_loaded
    then err not_started
    else if it.dir_contents_idx == 0
    then err at_zero
    else ok (record it { dir_contents_idx = it.dir_contents_idx - 1 })

abbrev pub iter_finished : Iter → Bool
iter_finished it = it.dir_contents_loaded && leb (length it.dir_contents) it.dir_contents_idx

-- `iterNext` on loaded contents.
unfoldable pub next_loaded : Iter → Result IterError (DirEnt × Iter)
next_loaded it = elim (get_elem? it.dir_contents it.dir_contents_idx) [
  | none ↦ err past_end
  | some d ↦ ok (d, record it { dir_contents_idx = it.dir_contents_idx + 1 })
]

unfoldable pub iter_next : Option (List DirEnt) → Iter → Result IterError (DirEnt × Iter)
iter_next listing it =
    if it.dir_contents_loaded
    then next_loaded it
    else elim (load_dir_contents listing it) [ err e ↦ err e | ok it' ↦ next_loaded it' ]

abbrev pub listing_length : Option (List DirEnt) → ℕ
listing_length none = 0
listing_length (some entries) = length entries

module _ (listing : Option (List DirEnt)) (wasi_dirent_size : ℕ) (dirent_bytes : DirEnt → List ℕ)
    (buffer_len : ℕ) where
  -- After the loop, with a full buffer: the last entry comes again next time.
  unfoldable pub step_back : List ℕ → Iter → Result IterError (ℕ × List ℕ × Iter)
  step_back buffer it = elim (iter_back it) [
    | err e ↦ err e
    | ok it' ↦ ok (buffer_len, buffer, it')
  ]

  -- The rest of the loop, once an entry is read: `more` is the next round.
  unfoldable pub copy_entry :
      (ℕ → List ℕ → Iter → Result IterError (ℕ × List ℕ × Iter))
      → ℕ
      → List ℕ
      → DirEnt
      → Iter
      → Result IterError (ℕ × List ℕ × Iter)
  unfolding step_back
  copy_entry more bytes_left buffer d it =
      if ltb bytes_left wasi_dirent_size
      then step_back buffer it
      else if ltb (bytes_left - wasi_dirent_size) (length d.path)
      then step_back (buffer ++ dirent_bytes d) it
      else more (bytes_left - wasi_dirent_size - length d.path)
          (buffer ++ (dirent_bytes d ++ d.path)) it

  -- The loop, on fuel: the number of bytes to report, what was written, and the iterator.
  unfoldable pub copy_loop : ℕ → ℕ → List ℕ → Iter → Result IterError (ℕ × List ℕ × Iter)
  unfolding copy_entry iter_next
  copy_loop zero bytes_left buffer it = err out_of_fuel
  copy_loop (suc fuel) bytes_left buffer it =
      if iter_finished it
      then ok (buffer_len - bytes_left, buffer, it)
      else elim (iter_next listing it) [
        | err e ↦ err e
        | ok (d, it') ↦ copy_entry (copy_loop fuel) bytes_left buffer d it'
      ]

  unfoldable pub copy_dirents_to_wasi_buffer : Iter → Result IterError (ℕ × List ℕ × Iter)
  unfolding copy_loop
  copy_dirents_to_wasi_buffer it =
      copy_loop (length it.dir_contents + listing_length listing + 1) buffer_len [] it
