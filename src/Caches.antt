-- ===== src/Caches.antt =====
-- The cache of intermediate modules (src/wavm/IRModuleCache.cpp): its state, its keys and what it reads
-- of a module of WAVM. The cache stands beside the stores of `Loader`, from which it loads. A map is a
-- function from its key; keys are lists of characters. One call runs at a time, as under the lock.
use faasm.Prelude.{
  ℕ, ◌+◌, ◌-◌, ◌%◌, ◌^◌, Bool, true, false, Option, none, some, List, [], ◌∷◌, ◌++◌, ltb,
  if◌then◌else◌,
}
use faasm.Files.Shared.{same_path}
use faasm.Loader.{Stores}
pub mod Modules
pub mod Compiled
pub mod Keys
pub mod Entries
pub mod Keeping
pub mod Stable
pub mod Linking
pub mod Failed
pub mod Functions

-- `SizeConstraints` of a memory or a table.
pub record Size : Type 0 where
  pub min : ℕ
  pub max : ℕ

-- The parts of an `IR::Module` that the cache reads or writes: a feature, the memories and tables that
-- the module defines, the tables that it imports and the sizes of its data segments.
pub record IrModule : Type 0 where
  pub simd : Bool
  pub memory_defs : List Size
  pub table_defs : List Size
  pub table_imports : List Size
  pub data_segments : List ℕ

abbrev pub new_ir_module : IrModule
new_ir_module = record {
  simd = false;
  memory_defs = [];
  table_defs = [];
  table_imports = [];
  data_segments = [];
}

-- The exceptions of the cache. `undefined` is a read behind the end of a vector, which C++ leaves
-- undefined; nothing is said of what follows it.
pub data Thrown : Type 0 where
  not_loaded no_memories defines_tables defines_memories undefined : Thrown

abbrev pub Keyed : Type 0 → Type 0
Keyed V = List ℕ → Option V

-- `C` is the type of compiled modules.
pub record World (C : Type 0) : Type 0 where
  pub module_map : Keyed IrModule
  pub compiled_module_map : Keyed C
  pub original_table_sizes : Keyed ℕ
  pub stores : Stores

unfoldable pub assign_key : {V : Type 0} → List ℕ → V → Keyed V → Keyed V
unfolding same_path
assign_key key v m k = if same_path k key then some v else m k

-- `count(key) > 0`.
abbrev pub is_in : {V : Type 0} → Option V → Bool
is_in none = false
is_in (some v) = true

-- What `operator[]` finds, or makes.
abbrev pub or_new : {V : Type 0} → V → Option V → V
or_new v none = v
or_new v (some w) = w

-- `getModuleKey`; an underscore is 95.
unfoldable pub get_module_key : List ℕ → List ℕ → List ℕ → List ℕ
get_module_key user func path = user ++ (95 ∷ (func ++ (95 ∷ path)))

-- A size kept as an `int` and read back as a 64-bit number.
abbrev pub through_int : ℕ → ℕ
through_int n = let r = n % 2 ^ 32 in if ltb r (2 ^ 31) then r else r + (2 ^ 64 - 2 ^ 32)

abbrev pub featured : Option IrModule → IrModule
featured found = record (or_new new_ir_module found) { simd = true }

module _ {C : Type 0} where
  unfoldable pub put_module : List ℕ → IrModule → World C → World C
  put_module key m w = record w { module_map = assign_key key m w.module_map }

  -- `getModuleFromMap`: the module, and the cache with it.
  unfoldable pub get_module_from_map : List ℕ → World C → IrModule × World C
  unfolding put_module
  get_module_from_map key w = let m = featured (w.module_map key) in (m, put_module key m w)
