-- ===== src/Caches/Keys.antt =====
-- Which modules share an entry of `IRModuleCache` (`getModuleKey` of src/wavm/IRModuleCache.cpp).
use faasm.Prelude.{
  ℕ, ◌≡◌, refl, sym, ap, ◌∙◌, subst, ok, false, List, [], ◌∷◌, ◌++◌, ◌==◌, All, split_at,
}
use faasm.Caches.{IrModule, World, get_module_key}
use faasm.Caches.Entries.{Holds}
use faasm.Caches.Stable.{get_module-Holds, get_module_held}
use faasm.Caches.Modules.{Around, get_module}

abbrev pub NoUnderscore : List ℕ → Type 0
NoUnderscore name = All (λ c. (c == 95) ≡ false) name

-- When neither the users nor the functions have an underscore in their names, equal keys are keys of
-- the same user, function and path.
pub get_module_key_injective :
    (user func path user' func' path' : List ℕ)
    → NoUnderscore user
    → NoUnderscore func
    → NoUnderscore user'
    → NoUnderscore func'
    → get_module_key user func path ≡ get_module_key user' func' path'
    → (user ≡ user') × (func ≡ func') × (path ≡ path')
unfolding get_module_key
get_module_key_injective user func path user' func' path' hu hf hu' hf' e =
    let (users, rest) =
      split_at 95 user user' (func ++ (95 ∷ path)) (func' ++ (95 ∷ path')) hu hu' e in
    let (functions, paths) = split_at 95 func func' path path' hf hf' rest in
    (users, functions, paths)

append_before : (a b c : List ℕ) → (a ++ b) ++ c ≡ a ++ (b ++ c)
append_before [] b c = refl
append_before (x ∷ a) b c = ap (λ l. x ∷ l) (append_before a b c)

-- An underscore can belong to the user or to the function.
get_module_key_moved :
    (a b c path : List ℕ)
    → get_module_key (a ++ (95 ∷ b)) c path ≡ get_module_key a (b ++ (95 ∷ c)) path
unfolding get_module_key
get_module_key_moved a b c path =
    append_before a (95 ∷ b) (95 ∷ (c ++ (95 ∷ path)))
    ∙ ap (λ l. a ++ (95 ∷ l)) (sym (append_before b (95 ∷ c) (95 ∷ path)))

-- The function `c` of the user `a_b` and the function `b_c` of the user `a` share the entry of each
-- path: the module that was loaded for the first is given out for the second.
pub get_module_mistaken :
    {C : Type 0} (r : Around C) (a b c path : List ℕ) (m : IrModule) (w : World C)
    → (get_module r (a ++ (95 ∷ b)) c path w).0 ≡ ok m
    → (get_module r a (b ++ (95 ∷ c)) path (get_module r (a ++ (95 ∷ b)) c path w).1).0 ≡ ok m
get_module_mistaken r a b c path m w h =
    let v = (get_module r (a ++ (95 ∷ b)) c path w).1 in
    get_module_held r a (b ++ (95 ∷ c)) path m v (
      subst (λ k. Holds k m v) (get_module_key_moved a b c path)
        (get_module-Holds r (a ++ (95 ∷ b)) c path m w h))
