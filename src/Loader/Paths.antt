-- ===== src/Loader/Paths.antt =====
-- The keys and the paths of the file loader (src/storage/FileLoader.cpp).
use faasm.Prelude.{
  ℕ, Bool, true, false, ◌||◌, ◌&&◌, Option, none, some, List, [], ◌∷◌, ◌++◌, ◌==◌, if◌then◌else◌,
}
use faasm.Loader.{is_empty}

-- `path::append` of the standard library: an absolute path replaces what it is appended to.
abbrev pub starts_with_slash : List ℕ → Bool
starts_with_slash [] = false
starts_with_slash (c ∷ p) = c == 47

abbrev pub ends_with_slash : List ℕ → Bool
ends_with_slash [] = false
ends_with_slash (c ∷ []) = c == 47
ends_with_slash (c ∷ d ∷ p) = ends_with_slash (d ∷ p)

abbrev pub append : List ℕ → List ℕ → List ℕ
append p q =
    if starts_with_slash q
    then q
    else if is_empty p || ends_with_slash p
    then p ++ q
    else p ++ 47 ∷ q

-- `path::filename` and `path::parent_path` of the standard library.
abbrev has_slash : List ℕ → Bool
has_slash [] = false
has_slash (c ∷ p) = (c == 47) || has_slash p

abbrev pub filename : List ℕ → List ℕ
filename [] = []
filename (c ∷ p) = if (c == 47) || has_slash p then filename p else c ∷ p

abbrev before_last_slash : List ℕ → List ℕ
before_last_slash [] = []
before_last_slash (c ∷ p) = if has_slash p then c ∷ before_last_slash p else []

abbrev all_slashes : List ℕ → Bool
all_slashes [] = true
all_slashes (c ∷ p) = (c == 47) && all_slashes p

abbrev strip_trailing_slashes : List ℕ → List ℕ
strip_trailing_slashes [] = []
strip_trailing_slashes (c ∷ p) = if all_slashes (c ∷ p) then [] else c ∷ strip_trailing_slashes p

abbrev or_root : List ℕ → List ℕ
or_root [] = 47 ∷ []
or_root (c ∷ p) = c ∷ p

abbrev pub parent_path : List ℕ → List ℕ
parent_path p = if has_slash p then or_root (strip_trailing_slashes (before_last_slash p)) else []

-- "function.wasm".
abbrev pub func_filename : List ℕ
func_filename = 102 ∷ 117 ∷ 110 ∷ 99 ∷ 116 ∷ 105 ∷ 111 ∷ 110 ∷ 46 ∷ 119 ∷ 97 ∷ 115 ∷ 109 ∷ []

-- ".o", ".symbols", ".aot", ".enc" and "function.aot.sgx".
abbrev shared_obj_ext : List ℕ
shared_obj_ext = 46 ∷ 111 ∷ []

abbrev symbols_ext : List ℕ
symbols_ext = 46 ∷ 115 ∷ 121 ∷ 109 ∷ 98 ∷ 111 ∷ 108 ∷ 115 ∷ []

abbrev aot_ext : List ℕ
aot_ext = 46 ∷ 97 ∷ 111 ∷ 116 ∷ []

abbrev enc_ext : List ℕ
enc_ext = 46 ∷ 101 ∷ 110 ∷ 99 ∷ []

abbrev sgx_wamr_aot_filename : List ℕ
sgx_wamr_aot_filename =
    102 ∷ 117 ∷ 110 ∷ 99 ∷ 116 ∷ 105 ∷ 111 ∷ 110 ∷ 46 ∷ 97 ∷ 111 ∷ 116 ∷ 46 ∷ 115 ∷ 103 ∷ 120 ∷ []

pub record Target : Type 0 where
  pub arch : List ℕ
  pub cpu : List ℕ

abbrev pub func_object_filename : Target → List ℕ
func_object_filename t = func_filename ++ 46 ∷ t.arch ++ 46 ∷ t.cpu ++ shared_obj_ext

abbrev pub function_symbols_filename : Target → List ℕ
function_symbols_filename t = func_filename ++ 46 ∷ t.arch ++ 46 ∷ t.cpu ++ symbols_ext

abbrev pub wamr_aot_filename : Target → List ℕ
wamr_aot_filename t = func_filename ++ 46 ∷ t.arch ++ 46 ∷ t.cpu ++ aot_ext

-- What a message says of its function.
pub record Message : Type 0 where
  pub user : List ℕ
  pub function : List ℕ
  pub python_user : List ℕ
  pub python_function : List ℕ
  pub input_data : List ℕ

pub record Config : Type 0 where
  pub function_dir : List ℕ
  pub object_file_dir : List ℕ
  pub shared_files_dir : List ℕ
  -- Whether the virtual machine is "sgx".
  pub wasm_vm_sgx : Bool

abbrev pub get_key : Message → List ℕ → List ℕ
get_key msg name = msg.user ++ 47 ∷ (msg.function ++ 47 ∷ name)

abbrev pub get_dir : List ℕ → Message → List ℕ
get_dir base_dir msg = append (append base_dir msg.user) msg.function

-- A path is its text, so "." and ".." as a name are not resolved.
module _ (conf : Config) where
  abbrev pub get_function_file : Message → List ℕ
  get_function_file msg = append (get_dir conf.function_dir msg) func_filename

  abbrev pub get_function_object_file : Message → Target → List ℕ
  get_function_object_file msg t =
      append (get_dir conf.object_file_dir msg) (func_object_filename t)

  abbrev aot_name : Target → List ℕ
  aot_name t = if conf.wasm_vm_sgx then sgx_wamr_aot_filename else wamr_aot_filename t

  abbrev pub get_wamr_aot_key : Message → Target → List ℕ
  get_wamr_aot_key msg t = get_key msg (aot_name t)

  abbrev pub get_function_aot_file : Message → Target → List ℕ
  get_function_aot_file msg t = append (get_dir conf.object_file_dir msg) (aot_name t)

  abbrev pub get_encrypted_function_file : Message → List ℕ
  get_encrypted_function_file msg =
      append (get_dir conf.function_dir msg) (func_filename ++ enc_ext)

  abbrev pub get_function_symbols_file : Message → Target → List ℕ
  get_function_symbols_file msg t =
      append (get_dir conf.function_dir msg) (function_symbols_filename t)

  -- The directory is put behind the object directory even where it is absolute.
  abbrev pub get_shared_object_object_file : List ℕ → Target → List ℕ
  get_shared_object_object_file real_path t =
      append (conf.object_file_dir ++ parent_path real_path) (filename real_path)
      ++ 46 ∷ t.arch
      ++ 46 ∷ t.cpu
      ++ shared_obj_ext

  abbrev pub get_shared_file_file : List ℕ → List ℕ
  get_shared_file_file path = append conf.shared_files_dir path

-- "pyfuncs", "function.py" and "faasm://".
abbrev python_func_dir : List ℕ
python_func_dir = 112 ∷ 121 ∷ 102 ∷ 117 ∷ 110 ∷ 99 ∷ 115 ∷ []

abbrev python_function_filename : List ℕ
python_function_filename = 102 ∷ 117 ∷ 110 ∷ 99 ∷ 116 ∷ 105 ∷ 111 ∷ 110 ∷ 46 ∷ 112 ∷ 121 ∷ []

abbrev shared_file_prefix : List ℕ
shared_file_prefix = 102 ∷ 97 ∷ 97 ∷ 115 ∷ 109 ∷ 58 ∷ 47 ∷ 47 ∷ []

-- `getPythonFunctionRelativePath`; none for the exception.
unfoldable pub get_python_function_relative_path : Message → Option (List ℕ)
get_python_function_relative_path msg =
    if is_empty msg.python_user || is_empty msg.python_function
    then none
    else some (
        append (append (append python_func_dir msg.python_user) msg.python_function)
          python_function_filename)

abbrev under_prefix : Option (List ℕ) → Option (List ℕ)
under_prefix none = none
under_prefix (some path) = some (append shared_file_prefix path)

unfoldable pub get_python_function_shared_file_path : Message → Option (List ℕ)
unfolding get_python_function_relative_path
get_python_function_shared_file_path msg = under_prefix (get_python_function_relative_path msg)
