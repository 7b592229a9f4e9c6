-- ===== src/Caches/Functions.antt =====
-- The cache of bound modules (src/wavm/WAVMModuleCache.cpp) over the cache of intermediate modules, and
-- the way of a main module through `doBindToFunctionInternal` and `createModuleInstance` of
-- src/wavm/WAVMWasmModule.cpp. `B` is the type of bound modules. `funcToString`, the checks up to the
-- linking, and all that follows the compiled module are arguments; `none` of the last is an exception.
-- `new_module` is a module that is not bound, as its constructor makes it.
use faasm.Prelude.{
  ℕ, ◌≡◌, refl, sym, ap, ◌∙◌, Bool, Option, none, some, List, [], ◌∷◌, ◌++◌, inl, inr, Result, ok,
  err, Bool-cases, Option-cases, if◌then◌else◌,
}
use faasm.Files.Shared.{same_path}
use faasm.Files.Sync.{same_path_sound}
use faasm.Loader.Paths.{Message}
use faasm.Caches.{IrModule, Thrown, World, Keyed, assign_key, is_in}
use faasm.Caches.Modules.{Around, get_module}
use faasm.Caches.Compiled.{get_compiled_module}
use faasm.Caches.Entries.{assign_key_same}

pub data BindError : Type 0 where
  thrown : Thrown → BindError
  not_linked not_instantiated : BindError

pub record ModuleCache (C : Type 0) (B : Type 0) : Type 0 where
  pub cached_module_map : Keyed B
  pub world : World C

-- `cachedModuleMap.erase(key)`.
abbrev pub erase_key : {B : Type 0} → List ℕ → Keyed B → Keyed B
erase_key key m k = if same_path k key then none else m k

-- `registerResetSnapshot`, with the snapshots that the registry holds: the key is that of the function
-- with "_reset".
abbrev pub reset_suffix : List ℕ
reset_suffix = 95 ∷ 114 ∷ 101 ∷ 115 ∷ 101 ∷ 116 ∷ []

unfoldable pub register_reset_snapshot :
    {S : Type 0} → (Message → List ℕ) → Message → S → Keyed S → List ℕ × Keyed S
unfolding assign_key
register_reset_snapshot func_to_string msg data_now reg =
    let snap_key = func_to_string msg ++ reset_suffix in
    (snap_key, if is_in (reg snap_key) then reg else assign_key snap_key data_now reg)

module _ {C : Type 0} {B : Type 0} (a : Around C) (func_to_string : Message → List ℕ)
    (link : IrModule → Bool) (instantiate : C → Option B) (new_module : B) where
  abbrev finish_bind : Option B → World C → Result BindError B × World C
  finish_bind none w = (err not_instantiated, w)
  finish_bind (some b) w = (ok b, w)

  abbrev instantiate_module : Result Thrown C × World C → Result BindError B × World C
  instantiate_module (err e, w) = (err (thrown e), w)
  instantiate_module (ok x, w) = finish_bind (instantiate x) w

  abbrev link_module : Message → Result Thrown IrModule × World C → Result BindError B × World C
  link_module msg (err e, w) = (err (thrown e), w)
  link_module msg (ok m, w) =
      if link m
      then instantiate_module (get_compiled_module a msg.user msg.function [] w)
      else (err not_linked, w)

  -- `bindToFunction(msg, false)` of a new module.
  unfoldable pub bind_to_function : Message → World C → Result BindError B × World C
  unfolding get_module get_compiled_module
  bind_to_function msg w = link_module msg (get_module a msg.user msg.function [] w)

  -- `cachedModuleMap[key]` of a key that is not there.
  unfoldable pub with_new_module : List ℕ → ModuleCache C B → ModuleCache C B
  unfolding assign_key
  with_new_module key s = record s {
    cached_module_map = assign_key key new_module s.cached_module_map;
  }

  -- The module that was put under the key is bound; an exception takes the entry away again.
  unfoldable pub keep_bound :
      List ℕ → ModuleCache C B → Result BindError B × World C → Result BindError B × ModuleCache C B
  unfolding assign_key
  keep_bound key s (err e, w) =
      (err e, record { cached_module_map = erase_key key s.cached_module_map; world = w })
  keep_bound key s (ok b, w) =
      (ok b, record { cached_module_map = assign_key key b s.cached_module_map; world = w })

  abbrev found_or_bound :
      Message → ModuleCache C B → Option B → Result BindError B × ModuleCache C B
  found_or_bound msg s (some b) = (ok b, s)
  found_or_bound msg s none =
      keep_bound (func_to_string msg) (with_new_module (func_to_string msg) s)
        (bind_to_function msg s.world)

  unfoldable pub get_cached_module :
      Message → ModuleCache C B → Result BindError B × ModuleCache C B
  unfolding bind_to_function keep_bound with_new_module
  get_cached_module msg s = found_or_bound msg s (s.cached_module_map (func_to_string msg))

  -- The entry of a key `k` after a request for the function of the key `key`, by the outcome.
  abbrev pub Kept : List ℕ → List ℕ → Keyed B → Keyed B → Result BindError B → Type 0
  Kept key k before after (ok b) =
      (after key ≡ some b) × (after k ≡ (if same_path k key then some b else before k))
  Kept key k before after (err e) = (before key ≡ none) × (after k ≡ before k)

  erase_new :
      (key k : List ℕ) (m : Keyed B)
      → m key ≡ none
      → erase_key key (assign_key key new_module m) k ≡ m k
  unfolding assign_key
  erase_new key k m h = elim (Bool-cases (same_path k key)) [
    | inr t ↦ rw t refl
    | inl t ↦ rw t (sym (ap m (same_path_sound k key t) ∙ h))
  ]

  bound_twice :
      (key k : List ℕ) (b : B) (m : Keyed B)
      → assign_key key b (assign_key key new_module m) k ≡ (if same_path k key then some b else m k)
  unfolding assign_key
  bound_twice key k b m = elim (Bool-cases (same_path k key)) [
    | inl t ↦ rw t refl
    | inr t ↦ rw t refl
  ]

  keep_bound-Kept :
      (key k : List ℕ) (s : ModuleCache C B) (r : Result BindError B × World C)
      → s.cached_module_map key ≡ none
      → Kept key k s.cached_module_map
          (keep_bound key (with_new_module key s) r).1.cached_module_map
          (keep_bound key (with_new_module key s) r).0
  unfolding keep_bound with_new_module
  keep_bound-Kept key k s (err e, w) h = (h, erase_new key k s.cached_module_map h)
  keep_bound-Kept key k s (ok b, w) h = (
    assign_key_same key b (assign_key key new_module s.cached_module_map),
    bound_twice key k b s.cached_module_map,
  )

  entry_same :
      (key k : List ℕ) (b : B) (m : Keyed B)
      → m key ≡ some b
      → m k ≡ (if same_path k key then some b else m k)
  entry_same key k b m h = elim (Bool-cases (same_path k key)) [
    | inr t ↦ rw t refl
    | inl t ↦ rw t (ap m (same_path_sound k key t) ∙ h)
  ]

  -- Every outcome of a request for the module of a function, with the entry of any key after it: the
  -- module given out is then the entry of the function, and the entries of other functions are as
  -- before; after an exception all entries are as before, and the function had none.
  pub get_cached_module-Kept :
      (msg : Message) (k : List ℕ) (s : ModuleCache C B)
      → Kept
          (func_to_string msg)
          k
          s.cached_module_map
          (get_cached_module msg s).1.cached_module_map
          (get_cached_module msg s).0
  unfolding get_cached_module
  get_cached_module-Kept msg k s =
      let key = func_to_string msg in
      elim (Option-cases (s.cached_module_map key)) [
        | inl n ↦ rw n (keep_bound-Kept key k s (bind_to_function msg s.world) n)
        | inr (b, n) ↦ rw n (n, entry_same key k b s.cached_module_map n)
      ]

  pub get_cached_module_held :
      (msg : Message) (b : B) (s : ModuleCache C B)
      → s.cached_module_map (func_to_string msg) ≡ some b
      → get_cached_module msg s ≡ (ok b, s)
  unfolding get_cached_module
  get_cached_module_held msg b s h = rw h refl
