-- ===== src/Loader.antt =====
-- The file loader (src/storage/FileLoader.cpp): bytes behind a key in the object store, with a copy
-- in the local file system where the loader uses one. The store is a function from a key to the bytes
-- under it, the local files a function from a path. Paths and keys are lists of characters. Reading
-- and writing a file that is there, and reaching the store, succeed.
use faasm.Prelude.{
  ℕ, Bool, true, false, not, ◌&&◌, Option, none, some, List, [], ◌∷◌, ◌++◌, ◌==◌, if◌then◌else◌,
}
use faasm.Files.Shared.{
  Local, absent, directory, file, Loaded, bytes, is_directory, no_such_file, other_exception,
  same_path,
}
pub mod Paths
pub mod Functions
pub mod Stored
pub mod Separate
pub mod Sharing

pub record Stores : Type 0 where
  pub s3 : List ℕ → Option (List ℕ)
  pub local_files : List ℕ → Local

unfoldable pub put_key : List ℕ → Option (List ℕ) → Stores → Stores
unfolding same_path
put_key key x st = record st { s3 = λ k. if same_path k key then x else st.s3 k }

unfoldable pub put_file : List ℕ → Local → Stores → Stores
unfolding same_path
put_file p x st = record st { local_files = λ q. if same_path q p then x else st.local_files q }

-- `trimLeadingSlashes`; a slash is 47.
unfoldable pub trim_leading_slashes : List ℕ → List ℕ
trim_leading_slashes [] = []
trim_leading_slashes (c ∷ p) = if c == 47 then trim_leading_slashes p else c ∷ p

-- `S3Wrapper::getKeyBytes`.
abbrev pub get_key_bytes : Bool → Option (List ℕ) → Loaded
get_key_bytes tolerate_missing (some content) = bytes content
get_key_bytes true none = bytes []
get_key_bytes false none = other_exception

abbrev pub is_empty : List ℕ → Bool
is_empty [] = true
is_empty (c ∷ p) = false

module _ (use_local_fs_cache : Bool) where
  -- What was found is kept in the local files, unless it is empty.
  abbrev pub keep : List ℕ → Loaded → Stores → Loaded × Stores
  keep local_cache_path (bytes (b ∷ content)) st = (
    bytes (b ∷ content),
    if use_local_fs_cache then put_file local_cache_path (file (b ∷ content)) st else st,
  )
  keep local_cache_path found st = (found, st)

  abbrev pub load_remote : List ℕ → List ℕ → Bool → Stores → Loaded × Stores
  load_remote path local_cache_path tolerate_missing st =
      keep local_cache_path (get_key_bytes tolerate_missing (st.s3 (trim_leading_slashes path))) st

  abbrev pub load_local : List ℕ → List ℕ → Bool → Stores → Local → Loaded × Stores
  load_local path local_cache_path tolerate_missing st absent =
      load_remote path local_cache_path tolerate_missing st
  load_local path local_cache_path tolerate_missing st directory = (is_directory, st)
  load_local path local_cache_path tolerate_missing st (file content) = (bytes content, st)

  -- `loadFileBytes`.
  unfoldable pub load_file_bytes : List ℕ → List ℕ → Bool → Stores → Loaded × Stores
  unfolding put_file trim_leading_slashes
  load_file_bytes path local_cache_path tolerate_missing st =
      if use_local_fs_cache
      then load_local path local_cache_path tolerate_missing st (st.local_files local_cache_path)
      else load_remote path local_cache_path tolerate_missing st

  -- `uploadFileBytes`, and `uploadFileString`, which differs by the type of the bytes.
  unfoldable pub upload_file_bytes : List ℕ → List ℕ → List ℕ → Stores → Stores
  unfolding put_key put_file trim_leading_slashes
  upload_file_bytes path local_cache_path content st =
      let st' = put_key (trim_leading_slashes path) (some content) st in
      if use_local_fs_cache && not (is_empty local_cache_path)
      then put_file local_cache_path (file content) st'
      else st'

  -- `loadHashFileBytes` and `uploadHashFileBytes`: the extension is ".sha256".
  abbrev pub get_hash_file_path : List ℕ → List ℕ
  get_hash_file_path path = path ++ 46 ∷ 115 ∷ 104 ∷ 97 ∷ 50 ∷ 53 ∷ 54 ∷ []

  pub load_hash_file_bytes : List ℕ → List ℕ → Stores → Loaded × Stores
  unfolding load_file_bytes
  load_hash_file_bytes path local_cache_path st =
      load_file_bytes (get_hash_file_path path) (get_hash_file_path local_cache_path) true st

  pub upload_hash_file_bytes : List ℕ → List ℕ → List ℕ → Stores → Stores
  unfolding upload_file_bytes
  upload_hash_file_bytes path local_cache_path content st =
      upload_file_bytes (get_hash_file_path path) (get_hash_file_path local_cache_path) content st
