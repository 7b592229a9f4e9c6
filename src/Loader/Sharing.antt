-- ===== src/Loader/Sharing.antt =====
-- The shared files over the file loader (`updateSharedFile`, `syncPythonFunctionFile` and `clear` of
-- src/storage/SharedFiles.cpp). Removing the prefix is an argument, and so is
-- `path::append` of boost, which is not that of the standard library: an absolute path does not
-- replace what it is appended to.
use faasm.Prelude.{
  ℕ, ◌≡◌, refl, ◌∙◌, Bool, true, false, Option, none, some, List, [], ◌∷◌, if◌then◌else◌,
}
use faasm.Files.Shared.{
  Local, absent, file, Loaded, bytes, is_directory, no_such_file, other_exception, World, lookup,
  sync_shared_file, sync_state, check_local, store_loaded,
}
use faasm.Files.Sync.{same_path_refl}
use faasm.Loader.{Stores, is_empty, trim_leading_slashes, load_file_bytes}
use faasm.Loader.Paths.{
  Message, Config, append, starts_with_slash, get_shared_file_file,
  get_python_function_relative_path, get_python_function_shared_file_path,
}
use faasm.Loader.Functions.{load_shared_file, upload_shared_file, missing_when_empty}
use faasm.Loader.Stored.{s3-upload, same_key, load-stored}

-- `SharedFiles::clear`.
pub clear : World → World
clear w = record w { shared_file_map = [] }

-- What is relied on: for a relative path that is not empty, both ways to append agree.
abbrev pub AppendsRelative : (List ℕ → List ℕ → List ℕ) → Type 0
AppendsRelative boost_append =
    (p q : List ℕ)
    → is_empty q ≡ false
    → starts_with_slash q ≡ false
    → boost_append p q ≡ append p q

module _ (conf : Config) (boost_append : List ℕ → List ℕ → List ℕ) (use_local_fs_cache : Bool)
    (strip_shared_prefix : List ℕ → List ℕ) where
  abbrev upload_loaded : List ℕ → Loaded × Stores → Option Stores
  upload_loaded path (bytes content, st) =
      some (upload_shared_file conf use_local_fs_cache path content st)
  upload_loaded path (_, st) = none

  -- `updateSharedFile`; none for an exception of the loader.
  unfoldable pub update_shared_file : List ℕ → Stores → Option Stores
  unfolding load_shared_file upload_shared_file
  update_shared_file p st =
      let relative_path = strip_shared_prefix p in
      upload_loaded relative_path (load_shared_file conf use_local_fs_cache relative_path st)

  abbrev pub prepend_shared_root : List ℕ → List ℕ
  prepend_shared_root path = boost_append conf.shared_files_dir path

  -- What the loader answers for a shared file.
  abbrev pub loaded_from : Stores → List ℕ → Loaded
  loaded_from st path = (load_shared_file conf use_local_fs_cache path st).0

  -- `syncPythonFunctionFile`, with the directory of runtime files: nothing happens for a function
  -- that is not a Python one; none is an exception.
  abbrev sync_python_at :
      Stores → List ℕ → World → Option (List ℕ) → Option (List ℕ) → Option ℕ × World
  sync_python_at st runtime_files_dir w (some relative_path) (some shared_path) =
      sync_shared_file 2 strip_shared_prefix prepend_shared_root (loaded_from st) shared_path
        (boost_append runtime_files_dir relative_path) w
  sync_python_at st runtime_files_dir w _ _ = (none, w)

  unfoldable pub sync_python_function_file :
      Bool → Message → Stores → List ℕ → World → Option ℕ × World
  unfolding get_python_function_relative_path get_python_function_shared_file_path
  sync_python_function_file is_python msg st runtime_files_dir w =
      if is_python
      then sync_python_at st runtime_files_dir w (get_python_function_relative_path msg)
          (get_python_function_shared_file_path msg)
      else (some 0, w)

  found_not_empty :
      (b : ℕ) (content : List ℕ) (r : Loaded × Stores)
      → r.0 ≡ bytes (b ∷ content)
      → (missing_when_empty conf use_local_fs_cache r).0 ≡ bytes (b ∷ content)
  found_not_empty b content (bytes [], st) e = cc
  found_not_empty b content (bytes (a ∷ x), st) e = e
  found_not_empty b content (is_directory, st) e = cc
  found_not_empty b content (no_such_file, st) e = cc
  found_not_empty b content (other_exception, st) e = cc

  -- The store after the upload, beside the local files of another host.
  abbrev pub uploaded_to : Bool → List ℕ → List ℕ → Stores → (List ℕ → Local) → Stores
  uploaded_to uploads_cached path content st files =
      record (upload_shared_file conf uploads_cached (strip_shared_prefix path) content st) {
        local_files = files;
      }

  load-uploaded_shared :
      (path : List ℕ) (b : ℕ) (content : List ℕ) (uploads_cached : Bool) (st : Stores)
      (files : List ℕ → Local)
      → files (get_shared_file_file conf (strip_shared_prefix path)) ≡ absent
      → loaded_from
          (uploaded_to uploads_cached path (b ∷ content) st files)
          (strip_shared_prefix path)
        ≡ bytes (b ∷ content)
  unfolding load_shared_file upload_shared_file
  load-uploaded_shared path b content uploads_cached st files l =
      let p = strip_shared_prefix path in
      let cache = get_shared_file_file conf p in
      let st' = uploaded_to uploads_cached path (b ∷ content) st files in
      found_not_empty b content (load_file_bytes use_local_fs_cache p cache true st') (
        load-stored use_local_fs_cache true p cache (b ∷ content) st'
          (s3-upload uploads_cached p cache (b ∷ content) (trim_leading_slashes p) st
            ∙ same_key (trim_leading_slashes p) (some (b ∷ content))
                (st.s3 (trim_leading_slashes p)))
          (λ e. l))

  -- A shared file that was uploaded under a relative path and is not empty is found by a host that has no local file for it
  -- and has not looked for it before: the sync answers 0, and the local file that the path stands for
  -- then has the bytes.
  pub sync_shared_file-upload_shared_file :
      (path : List ℕ) (b : ℕ) (content : List ℕ) (uploads_cached : Bool) (st : Stores) (w : World)
      → AppendsRelative boost_append
      → is_empty (strip_shared_prefix path) ≡ false
      → starts_with_slash (strip_shared_prefix path) ≡ false
      → lookup path w.shared_file_map ≡ none
      → w.local_files (get_shared_file_file conf (strip_shared_prefix path)) ≡ absent
      → ((sync_shared_file 2 strip_shared_prefix prepend_shared_root
            (loaded_from (uploaded_to uploads_cached path (b ∷ content) st w.local_files))
            path
            []
            w).0
          ≡ some 0)
        × ((sync_shared_file 2 strip_shared_prefix prepend_shared_root
                (loaded_from (uploaded_to uploads_cached path (b ∷ content) st w.local_files))
                path
                []
                w).1.local_files
              (get_shared_file_file conf (strip_shared_prefix path))
            ≡ file (b ∷ content))
  unfolding sync_shared_file sync_state check_local store_loaded
  sync_shared_file-upload_shared_file path b content uploads_cached st w law full relative u l =
      let real = get_shared_file_file conf (strip_shared_prefix path) in
      let found = load-uploaded_shared path b content uploads_cached st w.local_files l in
      let same : prepend_shared_root (strip_shared_prefix path) ≡ real =
        law conf.shared_files_dir (strip_shared_prefix path) full relative in
      rw u (rw same (rw l (rw found (refl, rw (same_path_refl real) refl))))
