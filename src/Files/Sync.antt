-- ===== src/Files/Sync.antt =====
-- What `syncSharedFile` and `deleteSharedFile` of src/storage/SharedFiles.cpp leave in the cache.
use faasm.Prelude.{
  ℕ, ◌≡◌, refl, sym, ap, ◌∙◌, true, false, Option, none, some, List, [], ◌∷◌, ◌==◌, if◌then◌else◌,
  arith, Bool-cases, inl, inr, ◌⊎◌,
}
use faasm.Files.Shared.{
  FileState, not_checked, not_exists, exists, exists_dir, Local, absent, directory, file, Loaded,
  bytes, is_directory, no_such_file, other_exception, Cache, same_path, lookup, assign, erase,
  World, return_value, answer, real_path, store_loaded, check_local, sync_state, sync_shared_file,
  delete_shared_file,
}

pub same_path_refl : (p : List ℕ) → same_path p p ≡ true
unfolding same_path
same_path_refl [] = refl
same_path_refl (a ∷ p) = let e : (a == a) ≡ true = ground arith in rw (e, same_path_refl p) refl

lookup-assign : (p : List ℕ) (s : FileState) (c : Cache) → lookup p (assign p s c) ≡ some s
unfolding lookup assign
lookup-assign p s [] = rw (same_path_refl p) refl
lookup-assign p s ((k, t) ∷ c) = elim (Bool-cases (same_path k p)) [
  | inl e ↦ rw e (rw e refl)
  | inr e ↦ rw e (rw e (lookup-assign p s c))
]

pub same_path_sound : (p q : List ℕ) → same_path p q ≡ true → p ≡ q
unfolding same_path
same_path_sound [] [] e = refl
same_path_sound [] (b ∷ q) e = cc
same_path_sound (a ∷ p) [] e = cc
same_path_sound (a ∷ p) (b ∷ q) e = ground (arith, same_path_sound p q)

pub lookup-erase_same : (p : List ℕ) (c : Cache) → lookup p (erase p c) ≡ none
unfolding lookup erase
lookup-erase_same p [] = refl
lookup-erase_same p ((k, t) ∷ c) = elim (Bool-cases (same_path k p)) [
  | inl e ↦ rw e (lookup-erase_same p c)
  | inr e ↦ rw e (rw e (lookup-erase_same p c))
]

lookup-erase :
    (p q : List ℕ) (c : Cache) → same_path p q ≡ false → lookup p (erase q c) ≡ lookup p c
unfolding lookup erase
lookup-erase p q [] h = refl
lookup-erase p q ((k, t) ∷ c) h = elim (Bool-cases (same_path k q)) [
  | inl e ↦ rw e (elim (Bool-cases (same_path k p)) [
    | inl e' ↦
        let bad : true ≡ false = sym e ∙ ap (λ x. same_path x q) (same_path_sound k p e') ∙ h in cc
    | inr e' ↦ rw e' (lookup-erase p q c h)
  ])
  | inr e ↦ rw e (ap (λ x. if same_path k p then some t else x) (lookup-erase p q c h))
]

module _ (enoent : ℕ) (strip : List ℕ → List ℕ) (root : List ℕ → List ℕ) where
  -- The state that the cache has afterwards is the one that was found, or NOT_CHECKED.
  abbrev Recorded : List ℕ → Option FileState × World → Type 0
  Recorded p r =
      (t : FileState) × (lookup p r.1.shared_file_map ≡ some t)
      × ((r.0 ≡ some t) ⊎ ((r.0 ≡ none) × (t ≡ not_checked)))

  store_loaded-Recorded :
      (p real : List ℕ) (w : World) (x : Loaded)
      → Recorded p (store_loaded enoent strip root p real w x)
  unfolding store_loaded
  store_loaded-Recorded p real w is_directory =
      (exists_dir, lookup-assign p exists_dir w.shared_file_map, inl refl)
  store_loaded-Recorded p real w (bytes []) =
      (not_exists, lookup-assign p not_exists w.shared_file_map, inl refl)
  store_loaded-Recorded p real w no_such_file =
      (not_exists, lookup-assign p not_exists w.shared_file_map, inl refl)
  store_loaded-Recorded p real w (bytes (b ∷ bs)) =
      (exists, lookup-assign p exists w.shared_file_map, inl refl)
  store_loaded-Recorded p real w other_exception =
      (not_checked, lookup-assign p not_checked w.shared_file_map, inr (refl, refl))

  check_local-Recorded :
      (load : List ℕ → Loaded) (p real : List ℕ) (w : World) (x : Local)
      → Recorded p (check_local enoent strip root load p real w x)
  unfolding check_local
  check_local-Recorded load p real w directory =
      (exists_dir, lookup-assign p exists_dir w.shared_file_map, inl refl)
  check_local-Recorded load p real w (file b) =
      (exists, lookup-assign p exists w.shared_file_map, inl refl)
  check_local-Recorded load p real w absent = store_loaded-Recorded p real w (load (strip p))

  sync_state-Recorded :
      (load : List ℕ → Loaded) (p l : List ℕ) (w : World) (o : Option FileState)
      → lookup p w.shared_file_map ≡ o
      → Recorded p (sync_state enoent strip root load p l w o)
  unfolding sync_state
  sync_state-Recorded load p l w (some s) e = (s, e, inl refl)
  sync_state-Recorded load p l w none e =
      check_local-Recorded load p (real_path enoent strip root p l) w
        (w.local_files (real_path enoent strip root p l))

  sync-cached :
      (load : List ℕ → Loaded) (p l : List ℕ) (w : World) (s : FileState)
      → lookup p w.shared_file_map ≡ some s
      → sync_shared_file enoent strip root load p l w ≡ (some (return_value enoent s), w)
  unfolding sync_shared_file sync_state
  sync-cached load p l w s e = rw e refl

  -- Once a shared file has been synced, syncing it again asks the loader nothing and changes nothing,
  -- and answers what the first call answered; after a call that threw it answers ENOENT.
  pub sync_shared_file-again :
      (load load' : List ℕ → Loaded) (p l l' : List ℕ) (w : World)
      → (code : ℕ) × (sync_shared_file enoent strip root load' p l'
            (sync_shared_file enoent strip root load p l w).1
          ≡ (some code, (sync_shared_file enoent strip root load p l w).1))
        × (((sync_shared_file enoent strip root load p l w).0 ≡ some code)
            ⊎ (((sync_shared_file enoent strip root load p l w).0 ≡ none) × (code ≡ enoent)))
  unfolding sync_shared_file
  sync_shared_file-again load load' p l l' w =
      let (t, at, how) = sync_state-Recorded load p l w (lookup p w.shared_file_map) refl in
      (
        return_value enoent t,
        sync-cached load' p l' (sync_shared_file enoent strip root load p l w).1 t at,
        elim how [
          | inl e ↦ inl (ap (answer enoent) e)
          | inr (e, n) ↦ inr (ap (answer enoent) e, ap (return_value enoent) n)
        ],
      )

  -- `deleteSharedFile` leaves the cached state of a file whose stripped path is another: syncing it
  -- then answers as if it had not been deleted, and asks the loader nothing.
  pub sync_shared_file-delete :
      (load : List ℕ → Loaded) (p l : List ℕ) (w : World) (s : FileState)
      → lookup p w.shared_file_map ≡ some s
      → same_path p (strip p) ≡ false
      → sync_shared_file enoent strip root load p l (delete_shared_file enoent strip root p w)
        ≡ (some (return_value enoent s), delete_shared_file enoent strip root p w)
  unfolding delete_shared_file
  sync_shared_file-delete load p l w s e h =
      sync-cached load p l (delete_shared_file enoent strip root p w) s
        (lookup-erase p (strip p) w.shared_file_map h ∙ e)
