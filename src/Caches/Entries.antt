-- ===== src/Caches/Entries.antt =====
-- The entries of the module map of `IRModuleCache` (src/wavm/IRModuleCache.cpp).
use faasm.Prelude.{ℕ, ◌≡◌, refl, sym, ap, ◌∙◌, true, false, some, List, inl, inr, Bool-cases}
use faasm.Files.Shared.{same_path}
use faasm.Files.Sync.{same_path_refl, same_path_sound}
use faasm.Caches.{
  IrModule, World, Keyed, assign_key, is_in, put_module, get_module_from_map, featured,
}

pub assign_key_same : {V : Type 0} (k : List ℕ) (v : V) (m : Keyed V) → assign_key k v m k ≡ some v
unfolding assign_key
assign_key_same k v m = rw (same_path_refl k) refl

pub assign_key_other :
    {V : Type 0} (j k : List ℕ) (v : V) (m : Keyed V)
    → same_path k j ≡ false
    → assign_key j v m k ≡ m k
unfolding assign_key
assign_key_other j k v m e = rw e refl

-- A module that has the feature is not changed by a look at it.
featured_same : (m : IrModule) → m.simd ≡ true → featured (some m) ≡ m
featured_same m e = ap (λ b. record m { simd = b }) (sym e)

module _ {C : Type 0} where
  -- The cache holds the module under the key, with the feature that it gives to every module.
  abbrev pub Holds : List ℕ → IrModule → World C → Type 0
  Holds k m w = (w.module_map k ≡ some m) × (m.simd ≡ true)

  pub Holds-differ :
      (k j : List ℕ) (m : IrModule) (w : World C)
      → Holds k m w
      → is_in (w.module_map j) ≡ false
      → same_path k j ≡ false
  Holds-differ k j m w h e = elim (Bool-cases (same_path k j)) [
    | inr t ↦ t
    | inl t ↦
        let same : k ≡ j = same_path_sound k j t in
        let bad : true ≡ false = sym (ap is_in (h.0)) ∙ ap (λ x. is_in (w.module_map x)) same ∙ e in
        cc
  ]

  pub Holds-put_module :
      (k j : List ℕ) (m x : IrModule) (w : World C)
      → same_path k j ≡ false
      → Holds k m w
      → Holds k m (put_module j x w)
  unfolding put_module
  Holds-put_module k j m x w e h = (assign_key_other j k x w.module_map e ∙ h.0, h.1)

  pub Holds-get_module_from_map :
      (k j : List ℕ) (m : IrModule) (w : World C)
      → Holds k m w
      → Holds k m (get_module_from_map j w).1
  unfolding get_module_from_map put_module
  Holds-get_module_from_map k j m w h = elim (Bool-cases (same_path k j)) [
    | inr t ↦ (assign_key_other j k (featured (w.module_map j)) w.module_map t ∙ h.0, h.1)
    | inl t ↦
        let same : j ≡ k = sym (same_path_sound k j t) in
        rw same (
          rw (h.0) (
              assign_key_same k (featured (some m)) w.module_map ∙ ap some (featured_same m (h.1))),
          h.1,
        )
  ]

  -- What a look leaves is the module that it gives.
  pub get_module_from_map-Holds :
      (k : List ℕ) (w : World C) → Holds k (get_module_from_map k w).0 (get_module_from_map k w).1
  unfolding get_module_from_map put_module
  get_module_from_map-Holds k w = (assign_key_same k (featured (w.module_map k)) w.module_map, refl)

  pub get_module_from_map_held :
      (k : List ℕ) (m : IrModule) (w : World C) → Holds k m w → (get_module_from_map k w).0 ≡ m
  unfolding get_module_from_map
  get_module_from_map_held k m w h = rw (h.0) (featured_same m (h.1))
