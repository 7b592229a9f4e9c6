-- ===== src/Loader/Separate.antt =====
-- Which uploads touch which files (src/storage/FileLoader.cpp).
use faasm.Prelude.{
  ℕ, ◌≡◌, refl, sym, ap, ◌∙◌, Bool, true, false, ◌&&◌, ◌||◌, some, List, [], ◌∷◌, ◌++◌, ◌==◌,
  if◌then◌else◌, arith, Bool-cases, inl, inr, All, split_at,
}
use faasm.Files.Shared.{
  Local, absent, file, Loaded, bytes, directory, is_directory, no_such_file, other_exception,
  same_path,
}
use faasm.Files.Sync.{same_path_refl, same_path_sound}
use faasm.Loader.{
  Stores, trim_leading_slashes, is_empty, load_file_bytes, upload_file_bytes, keep, load_local,
  load_remote, get_key_bytes,
}
use faasm.Loader.Paths.{
  Message, Config, Target, append, ends_with_slash, get_key, get_dir, func_filename,
  get_shared_object_object_file,
}
use faasm.Loader.Functions.{
  load_function_wasm, upload_function, load_shared_object_wasm, upload_shared_object_object_file,
}
use faasm.Loader.Stored.{s3-upload, local-other, same_key, load-stored}

-- A name is not empty and has no slash.
abbrev pub IsName : List ℕ → Type 0
IsName name = (is_empty name ≡ false) × All (λ c. (c == 47) ≡ false) name

trim-name : (name rest : List ℕ) → IsName name → trim_leading_slashes (name ++ rest) ≡ name ++ rest
unfolding trim_leading_slashes
trim-name [] rest h = let bad = h.0 in cc
trim-name (c ∷ name) rest h = rw (h.1.0) refl

keep-value :
    (use_cache : Bool) (cache : List ℕ) (x : Loaded) (st : Stores)
    → (keep use_cache cache x st).0 ≡ x
keep-value use_cache cache (bytes []) st = refl
keep-value use_cache cache (bytes (b ∷ x)) st = refl
keep-value use_cache cache is_directory st = refl
keep-value use_cache cache no_such_file st = refl
keep-value use_cache cache other_exception st = refl

-- The loaded bytes depend on the key and on the local path alone.
load-same :
    (use_cache tolerate : Bool) (path cache : List ℕ) (st st' : Stores)
    → st.s3 (trim_leading_slashes path) ≡ st'.s3 (trim_leading_slashes path)
    → st.local_files cache ≡ st'.local_files cache
    → (load_file_bytes use_cache path cache tolerate st).0
      ≡ (load_file_bytes use_cache path cache tolerate st').0
unfolding load_file_bytes
load-same use_cache tolerate path cache st st' s l = elim (Bool-cases use_cache) [
  | inl e ↦
      rw e (
        ap (λ f. (load_local true path cache tolerate st f).0) l ∙ by_local (st'.local_files cache))
  | inr e ↦ rw e (remote false)
]
  where
    remote :
        (u : Bool)
        → (load_remote u path cache tolerate st).0 ≡ (load_remote u path cache tolerate st').0
    remote u =
        keep-value u cache (get_key_bytes tolerate (st.s3 (trim_leading_slashes path))) st
        ∙ ap (get_key_bytes tolerate) s
        ∙ sym (keep-value u cache (get_key_bytes tolerate (st'.s3 (trim_leading_slashes path))) st')

    by_local :
        (f : Local)
        → (load_local true path cache tolerate st f).0
          ≡ (load_local true path cache tolerate st' f).0
    by_local absent = remote true
    by_local directory = refl
    by_local (file x) = refl

-- What a path is joined to a name with.
abbrev base : List ℕ → List ℕ
base p = if is_empty p || ends_with_slash p then p else p ++ 47 ∷ []

append_assoc : (x y z : List ℕ) → (x ++ y) ++ z ≡ x ++ (y ++ z)
append_assoc [] y z = refl
append_assoc (c ∷ x) y z = ap (λ t. c ∷ t) (append_assoc x y z)

append-name : (p name : List ℕ) → IsName name → append p name ≡ base p ++ name
append-name p [] h = let bad = h.0 in cc
append-name p (c ∷ name) h = rw h.1.0 (elim (Bool-cases (is_empty p || ends_with_slash p)) [
  | inl e ↦ rw e refl
  | inr e ↦ rw e (sym (append_assoc p (47 ∷ []) (c ∷ name)))
])

ends-cons : (c : ℕ) (p : List ℕ) → is_empty p ≡ false → ends_with_slash (c ∷ p) ≡ ends_with_slash p
ends-cons c [] h = cc
ends-cons c (d ∷ p) h = refl

name-ends :
    (x name : List ℕ)
    → IsName name
    → (is_empty (x ++ name) ≡ false) × (ends_with_slash (x ++ name) ≡ false)
name-ends [] [] h = let bad = h.0 in cc
name-ends [] (c ∷ []) h = (refl, h.1.0)
name-ends [] (c ∷ d ∷ name) h = (refl, (name-ends [] (d ∷ name) (refl, h.1.1)).1)
name-ends (c ∷ x) name h = let (e, s) = name-ends x name h in (refl, ends-cons c (x ++ name) e ∙ s)

base-name : (x name : List ℕ) → IsName name → base (x ++ name) ≡ x ++ (name ++ 47 ∷ [])
base-name x name h = let (e, s) = name-ends x name h in rw (e, s) (append_assoc x name (47 ∷ []))

function_file-key :
    (d name : List ℕ) (msg : Message)
    → IsName name
    → IsName msg.user
    → IsName msg.function
    → append (get_dir d msg) name ≡ base d ++ get_key msg name
function_file-key d name msg nm u f =
    let at_function : get_dir d msg ≡ (base d ++ (msg.user ++ 47 ∷ [])) ++ msg.function =
      ap (λ t. append t msg.function) (append-name d msg.user u)
      ∙ append-name (base d ++ msg.user) msg.function f
      ∙ ap (λ t. t ++ msg.function) (base-name (base d) msg.user u) in
    ap (λ t. append t name) at_function
    ∙ append-name ((base d ++ (msg.user ++ 47 ∷ [])) ++ msg.function) name nm
    ∙ ap (λ t. t ++ name) (base-name (base d ++ (msg.user ++ 47 ∷ [])) msg.function f)
    ∙ append_assoc (base d ++ (msg.user ++ 47 ∷ [])) (msg.function ++ 47 ∷ []) name
    ∙ append_assoc (base d) (msg.user ++ 47 ∷ []) ((msg.function ++ 47 ∷ []) ++ name)
    ∙ ap (λ t. base d ++ t)
        (append_assoc msg.user (47 ∷ []) ((msg.function ++ 47 ∷ []) ++ name)
          ∙ ap (λ t. msg.user ++ 47 ∷ t) (append_assoc msg.function (47 ∷ []) name))

same_path-append : (x p q : List ℕ) → same_path (x ++ p) (x ++ q) ≡ same_path p q
unfolding same_path
same_path-append [] p q = refl
same_path-append (c ∷ x) p q =
    let e : (c == c) ≡ true = ground arith in rw e (same_path-append x p q)

-- The two messages name different functions.
abbrev pub are_same_function : Message → Message → Bool
are_same_function m n = same_path m.user n.user && same_path m.function n.function

key-differ :
    (name : List ℕ) (m n : Message)
    → IsName m.user
    → IsName m.function
    → IsName n.user
    → IsName n.function
    → are_same_function m n ≡ false
    → same_path (get_key m name) (get_key n name) ≡ false
key-differ name m n mu mf nu nf h =
    elim (Bool-cases (same_path (get_key m name) (get_key n name))) [
      | inl e ↦
          let (users, rest) =
            split_at 47 m.user n.user (m.function ++ 47 ∷ name) (n.function ++ 47 ∷ name) mu.1 nu.1
              (same_path_sound (get_key m name) (get_key n name) e) in
          let (functions, names) = split_at 47 m.function n.function name name mf.1 nf.1 rest in
          let bad : true ≡ false =
            sym (rw (users, functions) (rw (same_path_refl n.user, same_path_refl n.function) refl))
            ∙ h in
          cc
      | inr e ↦ e
    ]

load-other :
    (d name content : List ℕ) (use_cache : Bool) (m n : Message) (st : Stores)
    → IsName name
    → IsName m.user
    → IsName m.function
    → IsName n.user
    → IsName n.function
    → are_same_function m n ≡ false
    → (load_file_bytes use_cache
        (get_key m name)
        (append (get_dir d m) name)
        false
        (upload_file_bytes use_cache (get_key n name) (append (get_dir d n) name) content st)).0
      ≡ (load_file_bytes use_cache (get_key m name) (append (get_dir d m) name) false st).0
load-other d name content use_cache m n st nm mu mf nu nf h =
    let km = get_key m name in
    let kn = get_key n name in
    let cm = append (get_dir d m) name in
    let cn = append (get_dir d n) name in
    let differ = key-differ name m n mu mf nu nf h in
    let trimmed : same_path (trim_leading_slashes km) (trim_leading_slashes kn) ≡ false =
      ap (λ t. same_path t (trim_leading_slashes kn))
        (trim-name m.user (47 ∷ (m.function ++ 47 ∷ name)) mu)
      ∙ ap (same_path km) (trim-name n.user (47 ∷ (n.function ++ 47 ∷ name)) nu)
      ∙ differ in
    let files : same_path cm cn ≡ false =
      ap (λ t. same_path t cn) (function_file-key d name m nm mu mf)
      ∙ ap (same_path (base d ++ km)) (function_file-key d name n nm nu nf)
      ∙ same_path-append (base d) km kn
      ∙ differ in
    load-same use_cache false km cm (upload_file_bytes use_cache kn cn content st) st
      (s3-upload use_cache kn cn content (trim_leading_slashes km) st
        ∙ ap (λ b. if b then some content else st.s3 (trim_leading_slashes km)) trimmed)
      (local-other use_cache kn cn content cm st files)

func_filename-IsName : IsName func_filename
func_filename-IsName = (refl, ground arith)

-- A name that stands for a file or directory of its own: neither "." nor "..", which the model, where
-- a path is its text, does not resolve.
abbrev pub IsFileName : List ℕ → Type 0
IsFileName name =
    IsName name × (same_path name (46 ∷ []) ≡ false) × (same_path name (46 ∷ 46 ∷ []) ≡ false)

-- Uploading one function leaves what is loaded for every other: for names of users and functions that
-- are not empty, have no slash and are neither "." nor "..", with and without local files.
pub load_function_wasm-upload_function :
    (conf : Config) (use_cache : Bool) (m n : Message) (st : Stores)
    → IsFileName m.user
    → IsFileName m.function
    → IsFileName n.user
    → IsFileName n.function
    → are_same_function m n ≡ false
    → (load_function_wasm conf use_cache m (upload_function conf use_cache n st)).0
      ≡ (load_function_wasm conf use_cache m st).0
unfolding load_function_wasm upload_function
load_function_wasm-upload_function conf use_cache m n st mu mf nu nf h =
    load-other conf.function_dir func_filename n.input_data use_cache m n st func_filename-IsName
      mu.0 mf.0 nu.0 nf.0 h

-- Uploading the object file of a shared object puts it under the key of the shared object itself: a
-- loader without local files then loads the object file for the WebAssembly, whatever was there.
pub load_shared_object_wasm-upload_shared_object_object_file :
    (conf : Config) (use_cache : Bool) (path content : List ℕ) (t : Target) (st : Stores)
    → (load_shared_object_wasm conf false path
        (upload_shared_object_object_file conf use_cache path t content st)).0
      ≡ bytes content
unfolding load_shared_object_wasm upload_shared_object_object_file
load_shared_object_wasm-upload_shared_object_object_file conf use_cache path content t st =
    let cache = get_shared_object_object_file conf path t in
    load-stored false false path path content (upload_file_bytes use_cache path cache content st)
      (s3-upload use_cache path cache content (trim_leading_slashes path) st
        ∙ same_key (trim_leading_slashes path) (some content) (st.s3 (trim_leading_slashes path)))
      (λ e. cc)
