-- ===== src/Files/Shared.antt =====
-- The cache of shared files (src/storage/SharedFiles.cpp). The prefix, the shared root and the file
-- loader are arguments; the local files are a function of the path. Paths are lists of characters.
use faasm.Prelude.{
  ℕ, Bool, true, false, ◌&&◌, Option, none, some, List, [], ◌∷◌, ◌==◌, if◌then◌else◌,
}

pub data FileState : Type 0 where
  not_checked not_exists exists exists_dir : FileState

-- What a local path is.
pub data Local : Type 0 where
  absent directory : Local
  file : List ℕ → Local

-- What `loadSharedFile` does: bytes, one of the two exceptions that are caught, or another.
pub data Loaded : Type 0 where
  bytes : List ℕ → Loaded
  is_directory no_such_file other_exception : Loaded

abbrev pub Cache : Type 0
Cache = List (List ℕ × FileState)

unfoldable pub same_path : List ℕ → List ℕ → Bool
same_path [] [] = true
same_path [] (b ∷ q) = false
same_path (a ∷ p) [] = false
same_path (a ∷ p) (b ∷ q) = a == b && same_path p q

unfoldable pub lookup : List ℕ → Cache → Option FileState
unfolding same_path
lookup p [] = none
lookup p ((k, s) ∷ c) = if same_path k p then some s else lookup p c

-- `sharedFileMap[p] = s`.
unfoldable pub assign : List ℕ → FileState → Cache → Cache
unfolding same_path
assign p s [] = (p, s) ∷ []
assign p s ((k, t) ∷ c) = if same_path k p then (k, s) ∷ c else (k, t) ∷ assign p s c

-- `sharedFileMap.erase(p)`.
unfoldable pub erase : List ℕ → Cache → Cache
unfolding same_path
erase p [] = []
erase p ((k, t) ∷ c) = if same_path k p then erase p c else (k, t) ∷ erase p c

pub record World : Type 0 where
  pub shared_file_map : Cache
  pub local_files : List ℕ → Local

abbrev put_file : List ℕ → Local → World → World
put_file p x w = record w { local_files = λ q. if same_path q p then x else w.local_files q }

abbrev put_state : List ℕ → FileState → World → World
put_state p s w = record w { shared_file_map = assign p s w.shared_file_map }

-- `getReturnValueForSharedFileState`, with the value of ENOENT.
abbrev pub return_value : ℕ → FileState → ℕ
return_value enoent exists = 0
return_value enoent exists_dir = 0
return_value enoent _ = enoent

abbrev pub answer : ℕ → Option FileState → Option ℕ
answer enoent none = none
answer enoent (some s) = some (return_value enoent s)

module _ (enoent : ℕ) (strip_shared_prefix : List ℕ → List ℕ)
    (prepend_shared_root : List ℕ → List ℕ) where
  -- The path that `syncSharedFile` works on; an empty local path is none.
  abbrev pub real_path : List ℕ → List ℕ → List ℕ
  real_path shared_path [] = prepend_shared_root (strip_shared_prefix shared_path)
  real_path shared_path (c ∷ local_path) = c ∷ local_path

  -- The state that an answer of the loader gives, and the world after it; none is an exception.
  unfoldable pub store_loaded : List ℕ → List ℕ → World → Loaded → Option FileState × World
  store_loaded shared_path real w is_directory =
      (some exists_dir, put_state shared_path exists_dir (put_file real directory w))
  store_loaded shared_path real w (bytes []) = (some not_exists, put_state shared_path not_exists w)
  store_loaded shared_path real w no_such_file =
      (some not_exists, put_state shared_path not_exists w)
  store_loaded shared_path real w (bytes (b ∷ bs)) =
      (some exists, put_state shared_path exists (put_file real (file (b ∷ bs)) w))
  store_loaded shared_path real w other_exception = (none, put_state shared_path not_checked w)

  unfoldable pub check_local :
      (List ℕ → Loaded) → List ℕ → List ℕ → World → Local → Option FileState × World
  check_local load shared_path real w directory =
      (some exists_dir, put_state shared_path exists_dir w)
  check_local load shared_path real w (file b) = (some exists, put_state shared_path exists w)
  check_local load shared_path real w absent =
      store_loaded shared_path real w (load (strip_shared_prefix shared_path))

  -- The state of the file afterwards, by what the cache has.
  unfoldable pub sync_state :
      (List ℕ → Loaded) → List ℕ → List ℕ → World → Option FileState → Option FileState × World
  sync_state load shared_path local_path w (some s) = (some s, w)
  sync_state load shared_path local_path w none =
      let real = real_path shared_path local_path in
      check_local load shared_path real w (w.local_files real)

  -- `syncSharedFile`: the return value, none for an exception.
  unfoldable pub sync_shared_file : (List ℕ → Loaded) → List ℕ → List ℕ → World → Option ℕ × World
  unfolding store_loaded check_local sync_state lookup assign
  sync_shared_file load shared_path local_path w =
      let (s, w') =
        sync_state load shared_path local_path w (lookup shared_path w.shared_file_map) in
      (answer enoent s, w')

  -- `deleteSharedFile`, after the loader's own deletion: it clears the cache at the stripped path.
  unfoldable pub delete_shared_file : List ℕ → World → World
  unfolding erase
  delete_shared_file p w = record w {
    shared_file_map = erase (strip_shared_prefix p) w.shared_file_map;
  }
