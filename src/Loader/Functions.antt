-- ===== src/Loader/Functions.antt =====
-- What the file loader loads and uploads (src/storage/FileLoader.cpp): for each kind of file, its key
-- and its local path. `none` is the exception of a message without a Python function.
use faasm.Prelude.{ℕ, Bool, true, false, not, ◌&&◌, Option, none, some, List, [], if◌then◌else◌}
use faasm.Files.Shared.{absent, Loaded, bytes, no_such_file}
use faasm.Loader.{
  Stores, put_key, put_file, trim_leading_slashes, is_empty, load_file_bytes, upload_file_bytes,
  load_hash_file_bytes, upload_hash_file_bytes,
}
use faasm.Loader.Paths.{
  Message, Config, Target, get_key, func_filename, func_object_filename, get_function_file,
  get_function_object_file, get_wamr_aot_key, get_function_aot_file, get_shared_object_object_file,
  get_shared_file_file, get_python_function_relative_path,
}

module _ (conf : Config) (use_local_fs_cache : Bool) where
  unfoldable pub load_function_wasm : Message → Stores → Loaded × Stores
  unfolding load_file_bytes
  load_function_wasm msg =
      load_file_bytes use_local_fs_cache (get_key msg func_filename) (get_function_file conf msg)
        false

  -- The input of the message is the body of the function.
  unfoldable pub upload_function : Message → Stores → Stores
  unfolding upload_file_bytes
  upload_function msg =
      upload_file_bytes use_local_fs_cache (get_key msg func_filename) (get_function_file conf msg)
        msg.input_data

  unfoldable pub load_function_object_file : Message → Target → Stores → Loaded × Stores
  unfolding load_file_bytes
  load_function_object_file msg t =
      load_file_bytes use_local_fs_cache (get_key msg (func_object_filename t))
        (get_function_object_file conf msg t) false

  unfoldable pub load_function_object_hash : Message → Target → Stores → Loaded × Stores
  unfolding load_hash_file_bytes
  load_function_object_hash msg t =
      load_hash_file_bytes use_local_fs_cache (get_key msg (func_object_filename t))
        (get_function_object_file conf msg t)

  unfoldable pub upload_function_object_file : Message → Target → List ℕ → Stores → Stores
  unfolding upload_file_bytes
  upload_function_object_file msg t =
      upload_file_bytes use_local_fs_cache (get_key msg (func_object_filename t))
        (get_function_object_file conf msg t)

  unfoldable pub upload_function_object_hash : Message → Target → List ℕ → Stores → Stores
  unfolding upload_hash_file_bytes
  upload_function_object_hash msg t =
      upload_hash_file_bytes use_local_fs_cache (get_key msg (func_object_filename t))
        (get_function_object_file conf msg t)

  unfoldable pub load_function_wamr_aot_file : Message → Target → Stores → Loaded × Stores
  unfolding load_file_bytes
  load_function_wamr_aot_file msg t =
      load_file_bytes use_local_fs_cache (get_wamr_aot_key conf msg t)
        (get_function_aot_file conf msg t) false

  unfoldable pub load_function_wamr_aot_hash : Message → Target → Stores → Loaded × Stores
  unfolding load_hash_file_bytes
  load_function_wamr_aot_hash msg t =
      load_hash_file_bytes use_local_fs_cache (get_wamr_aot_key conf msg t)
        (get_function_aot_file conf msg t)

  unfoldable pub upload_function_wamr_aot_file : Message → Target → List ℕ → Stores → Stores
  unfolding upload_file_bytes
  upload_function_wamr_aot_file msg t =
      upload_file_bytes use_local_fs_cache (get_wamr_aot_key conf msg t)
        (get_function_aot_file conf msg t)

  unfoldable pub upload_function_wamr_aot_hash : Message → Target → List ℕ → Stores → Stores
  unfolding upload_hash_file_bytes
  upload_function_wamr_aot_hash msg t =
      upload_hash_file_bytes use_local_fs_cache (get_wamr_aot_key conf msg t)
        (get_function_aot_file conf msg t)

  unfoldable pub load_shared_object_wasm : List ℕ → Stores → Loaded × Stores
  unfolding load_file_bytes
  load_shared_object_wasm path = load_file_bytes use_local_fs_cache path path false

  unfoldable pub load_shared_object_object_file : List ℕ → Target → Stores → Loaded × Stores
  unfolding load_file_bytes
  load_shared_object_object_file path t =
      load_file_bytes use_local_fs_cache path (get_shared_object_object_file conf path t) false

  unfoldable pub load_shared_object_object_hash : List ℕ → Target → Stores → Loaded × Stores
  unfolding load_hash_file_bytes
  load_shared_object_object_hash path t =
      load_hash_file_bytes use_local_fs_cache path (get_shared_object_object_file conf path t)

  unfoldable pub upload_shared_object_object_file : List ℕ → Target → List ℕ → Stores → Stores
  unfolding upload_file_bytes
  upload_shared_object_object_file path t =
      upload_file_bytes use_local_fs_cache path (get_shared_object_object_file conf path t)

  unfoldable pub upload_shared_object_object_hash : List ℕ → Target → List ℕ → Stores → Stores
  unfolding upload_hash_file_bytes
  upload_shared_object_object_hash path t =
      upload_hash_file_bytes use_local_fs_cache path (get_shared_object_object_file conf path t)

  -- An empty file is taken for a missing one.
  abbrev pub missing_when_empty : Loaded × Stores → Loaded × Stores
  missing_when_empty (bytes [], st) = (no_such_file, st)
  missing_when_empty (found, st) = (found, st)

  unfoldable pub load_shared_file : List ℕ → Stores → Loaded × Stores
  unfolding load_file_bytes
  load_shared_file path st =
      missing_when_empty
        (load_file_bytes use_local_fs_cache path (get_shared_file_file conf path) true st)

  unfoldable pub delete_shared_file : List ℕ → Stores → Stores
  unfolding put_key put_file trim_leading_slashes
  delete_shared_file path st =
      let st' = put_key (trim_leading_slashes path) none st in
      let local_cache_path = get_shared_file_file conf path in
      if use_local_fs_cache && not (is_empty local_cache_path)
      then put_file local_cache_path absent st'
      else st'

  unfoldable pub upload_shared_file : List ℕ → List ℕ → Stores → Stores
  unfolding upload_file_bytes
  upload_shared_file path =
      upload_file_bytes use_local_fs_cache path (get_shared_file_file conf path)

  abbrev upload_python_at : Message → Stores → Option (List ℕ) → Option Stores
  upload_python_at msg st none = none
  upload_python_at msg st (some path) =
      some (
        upload_file_bytes use_local_fs_cache path (get_shared_file_file conf path) msg.input_data
          st)

  unfoldable pub upload_python_function : Message → Stores → Option Stores
  unfolding upload_file_bytes get_python_function_relative_path
  upload_python_function msg st = upload_python_at msg st (get_python_function_relative_path msg)
