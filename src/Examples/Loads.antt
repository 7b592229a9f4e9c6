-- ===== src/Examples/Loads.antt =====
-- Runs of the file loader of src/storage/FileLoader.cpp.
use faasm.Prelude.{
  ◌++◌, ◌||◌, ◌==◌, if◌then◌else◌, ℕ, ◌≡◌, refl, true, false, none, some, Option, List, [], ◌∷◌,
  arith,
}
use faasm.Files.Shared.{Local, absent, file, bytes, same_path, World, lookup, sync_shared_file}
use faasm.Loader.{is_empty, Stores, load_file_bytes, upload_file_bytes}
use faasm.Loader.Paths.{
  starts_with_slash, ends_with_slash, Message, Config, Target, get_shared_file_file,
}
use faasm.Loader.Functions.{load_function_wasm, upload_function}
use faasm.Loader.Stored.{load_file_bytes-upload_file_bytes}
use faasm.Loader.Sharing.{
  AppendsRelative, prepend_shared_root, loaded_from, uploaded_to,
  sync_shared_file-upload_shared_file,
}
use faasm.Loader.Separate.{IsFileName, are_same_function, load_function_wasm-upload_function}

abbrev pub nothing_stored : Stores
nothing_stored = record { s3 = λ k. none; local_files = λ p. absent }

abbrev no_files : List ℕ → Local
no_files p = absent

-- The key "/a" and the local path "/b".
abbrev key_a : List ℕ
key_a = 47 ∷ 97 ∷ []

abbrev path_b : List ℕ
path_b = 47 ∷ 98 ∷ []

load_file_bytes-upload_file_bytes_example :
    ((load_file_bytes true key_a path_b false
        (upload_file_bytes true key_a path_b (1 ∷ 2 ∷ []) nothing_stored)).0
      ≡ bytes (1 ∷ 2 ∷ []))
    × ((load_file_bytes true key_a path_b false
          (record (upload_file_bytes true key_a path_b (1 ∷ 2 ∷ []) nothing_stored) {
            local_files = no_files;
          })).0
        ≡ bytes (1 ∷ 2 ∷ []))
load_file_bytes-upload_file_bytes_example =
    load_file_bytes-upload_file_bytes true true false key_a path_b path_b (1 ∷ 2 ∷ [])
      nothing_stored no_files refl (λ e. refl)

abbrev pub config : Config
config = record {
  function_dir = 47 ∷ 102 ∷ [];
  object_file_dir = 47 ∷ 111 ∷ [];
  shared_files_dir = 47 ∷ 115 ∷ [];
  wasm_vm_sgx = false;
}

-- The function 98 of the user 97, and its function 99.
abbrev demo : ℕ → Message
demo name = record {
  user = 97 ∷ [];
  function = name ∷ [];
  python_user = [];
  python_function = [];
  input_data = 1 ∷ 2 ∷ [];
}

different_functions : are_same_function (demo 98) (demo 99) ≡ false
unfolding same_path
different_functions = refl

name_a : IsFileName (97 ∷ [])
unfolding same_path
name_a = ((refl, ground arith), refl, refl)

demo_name :
    (name : ℕ) → (name == 47) ≡ false → (name == 46) ≡ false → IsFileName (demo name).function
unfolding same_path
demo_name name h d = ((refl, (h, tt)), rw d refl, rw d refl)

load_function_wasm-upload_function_example :
    (load_function_wasm config true
      (demo 98)
      (upload_function config true (demo 99) nothing_stored)).0
    ≡ (load_function_wasm config true (demo 98) nothing_stored).0
load_function_wasm-upload_function_example =
    load_function_wasm-upload_function config true (demo 98) (demo 99) nothing_stored name_a
      (demo_name 98 refl refl) name_a (demo_name 99 refl refl) different_functions

abbrev pub target : Target
target = record { arch = 120 ∷ []; cpu = 121 ∷ [] }

abbrev untouched : World
untouched = record { shared_file_map = []; local_files = no_files }

-- The path "c", which has no prefix to remove.
abbrev path_c : List ℕ
path_c = 99 ∷ []

not_looked_for : lookup path_c untouched.shared_file_map ≡ none
unfolding lookup
not_looked_for = refl

-- An append that puts a separator where one is missing and keeps what was there.
abbrev joined : List ℕ → List ℕ → List ℕ
joined p q =
    if is_empty q
    then p
    else if starts_with_slash q || is_empty p || ends_with_slash p
    then p ++ q
    else p ++ 47 ∷ q

joined-AppendsRelative : AppendsRelative joined
joined-AppendsRelative p q full relative = rw full (rw relative refl)

abbrev synced : Option ℕ × World
synced =
    sync_shared_file 2 (λ p. p) (prepend_shared_root config joined true (λ p. p))
      (loaded_from config joined true (λ p. p)
        (uploaded_to config joined true (λ p. p) true path_c (1 ∷ 2 ∷ []) nothing_stored no_files))
      path_c [] untouched

sync_shared_file-upload_shared_file_example :
    (synced.0 ≡ some 0)
    × (synced.1.local_files (get_shared_file_file config path_c) ≡ file (1 ∷ 2 ∷ []))
sync_shared_file-upload_shared_file_example =
    sync_shared_file-upload_shared_file config joined true (λ p. p) path_c 1 (2 ∷ []) true
      nothing_stored untouched joined-AppendsRelative refl refl not_looked_for refl
