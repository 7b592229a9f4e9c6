-- ===== src/Dynamic/Pointers.antt =====
-- Function pointers between modules: the entries of the global offset table stay
-- (src/wavm/WAVMWasmModule.cpp).
use faasm.Prelude.{
  ℕ, ◌+◌, ◌≡◌, refl, sym, ap, ◌∙◌, Bool, true, Option, none, some, List, [], ◌∷◌, ◌++◌, ◌==◌, ltb,
  if◌then◌else◌, Result, ok, err, Bool-cases, Option-cases, inl, inr, length, arith,
}
use faasm.Prelude.Maps.{NumberMap, find, insert, or_else, find-insert}
use faasm.Dynamic.Got.{
  Instances, find_function, add_function_to_table, add_found, get_dynamic_module_function, Got,
  Exports, GotError, add_elems, add_segments, base_of, add_module_to_got, new_entry, entry_or_new,
  resolve_func, fill_entry, fill_entries, fill_missing, set_element,
}

-- What happens to the table: a module is added, an import of GOT.func is resolved with what the loaded
-- modules then export, the placeholders are filled, a program asks for a function by name.
pub data Event : Type 0 where
  added : Exports → Option ℕ → Option ℕ → Event
  imported : (ℕ → Option ℕ) → ℕ → Event
  filled : (ℕ → Option ℕ) → Event
  looked_up : Instances → ℕ → ℕ → Event

abbrev after_import : Got → Result GotError (ℕ × Got) → Got
after_import g (err e) = g
after_import g (ok (i, g')) = g'

module _ (table_max : ℕ) where
  unfoldable pub step : Event → Got → Got
  unfolding add_module_to_got resolve_func fill_missing get_dynamic_module_function
  step (added x table_bottom data_bottom) g = add_module_to_got x table_bottom data_bottom g
  step (imported exported name) g = after_import g (resolve_func table_max exported name g)
  step (filled instance_export) g = (fill_missing instance_export g).1
  step (looked_up x handle name) g =
      after_import g (get_dynamic_module_function table_max x handle name g)

  unfoldable pub run : List Event → Got → Got
  unfolding step
  run [] g = g
  run (e ∷ es) g = run es (step e g)

module _ (name i : ℕ) where
  abbrev Bound : NumberMap ℕ → Type 0
  Bound m = find name m ≡ some i

  Bound-insert : (n j : ℕ) (m : NumberMap ℕ) → Bound m → Bound (insert n j m)
  Bound-insert n j m h =
      find-insert name n j m ∙ ap (λ o. or_else o (if n == name then some j else none)) h

  inserted : (j : ℕ) (m : NumberMap ℕ) → find name m ≡ none → find name (insert name j m) ≡ some j
  inserted j m h =
      let here : (name == name) ≡ true = ground arith in
      find-insert name name j m
      ∙ (ap (λ o. or_else o (if name == name then some j else none)) h ∙ rw here refl)

  never : (j : ℕ) (m : NumberMap ℕ) → find name (insert name j m) ≡ none → ⊥
  never j m h = elim (Option-cases (find name m)) [
    | inl x ↦ let bad : some j ≡ none = sym (inserted j m x) ∙ h in cc
    | inr (k, x) ↦
        let kept : find name (insert name j m) ≡ some k =
          find-insert name name j m
          ∙ ap (λ o. or_else o (if name == name then some j else none)) x in
        let bad : some k ≡ none = sym kept ∙ h in cc
  ]

  Bound-add_elems :
      (is_exported : ℕ → Bool) (j : ℕ) (names : List ℕ) (m : NumberMap ℕ)
      → Bound m
      → Bound (add_elems is_exported j names m)
  unfolding add_elems
  Bound-add_elems is_exported j [] m h = h
  Bound-add_elems is_exported j (n ∷ names) m h = elim (Bool-cases (is_exported n)) [
    | inl t ↦ rw t (Bound-add_elems is_exported (j + 1) names (insert n j m) (Bound-insert n j m h))
    | inr t ↦ rw t (Bound-add_elems is_exported (j + 1) names m h)
  ]

  Bound-add_segments :
      (is_exported : ℕ → Bool) (bottom : Option ℕ) (segments : List (ℕ × List ℕ)) (m : NumberMap ℕ)
      → Bound m
      → Bound (add_segments is_exported bottom segments m)
  unfolding add_segments
  Bound-add_segments is_exported bottom [] m h = h
  Bound-add_segments is_exported bottom ((b, names) ∷ segments) m h =
      Bound-add_segments is_exported bottom segments
        (add_elems is_exported (base_of bottom b) names m)
        (Bound-add_elems is_exported (base_of bottom b) names m h)

  Bound-fill_entries :
      (instance_export : ℕ → Option ℕ) (entries : NumberMap ℕ) (g : Got)
      → Bound g.global_offset_table_map
      → Bound (fill_entries instance_export entries g).1.global_offset_table_map
  unfolding fill_entries fill_entry
  Bound-fill_entries instance_export [] g h = h
  Bound-fill_entries instance_export ((n, j) ∷ entries) g h =
      elim (Option-cases (instance_export n)) [
        | inl x ↦ rw x h
        | inr (f, x) ↦ rw x (
            Bound-fill_entries instance_export entries
              (record g {
                table = set_element j f g.table;
                global_offset_table_map = insert n j g.global_offset_table_map;
              })
              (Bound-insert n j g.global_offset_table_map h))
      ]

  module _ (table_max : ℕ) where
    Bound-new_entry :
        (n : ℕ) (g : Got) (o : Option ℕ)
        → Bound g.global_offset_table_map
        → Bound (after_import g (new_entry table_max n g o)).global_offset_table_map
    unfolding new_entry
    Bound-new_entry n g (some f) h = elim (Bool-cases (ltb (length g.table) table_max)) [
      | inl t ↦ rw t (Bound-insert n (length g.table) g.global_offset_table_map h)
      | inr t ↦ rw t h
    ]
    Bound-new_entry n g none h = elim (Bool-cases (ltb (length g.table) table_max)) [
      | inl t ↦ rw t h
      | inr t ↦ rw t h
    ]

    Bound-add_found :
        (g : Got) (r : Result GotError ℕ)
        → Bound g.global_offset_table_map
        → Bound (after_import g (add_found table_max g r)).global_offset_table_map
    unfolding add_function_to_table
    Bound-add_found g (err e) h = h
    Bound-add_found g (ok f) h = elim (Bool-cases (ltb (length g.table) table_max)) [
      | inl t ↦ rw t h
      | inr t ↦ rw t h
    ]

    Bound-step :
        (e : Event) (g : Got)
        → Bound g.global_offset_table_map
        → Bound (step table_max e g).global_offset_table_map
    unfolding step add_module_to_got resolve_func fill_missing get_dynamic_module_function
    Bound-step (added x table_bottom data_bottom) g h =
        Bound-add_segments x.is_exported table_bottom x.elem_segments g.global_offset_table_map h
    Bound-step (imported exported n) g h = elim (Option-cases (find n g.global_offset_table_map)) [
      | inl x ↦ rw x (Bound-new_entry n g (exported n) h)
      | inr (j, x) ↦ rw x h
    ]
    Bound-step (filled instance_export) g h =
        Bound-fill_entries instance_export g.missing_global_offset_entries g h
    Bound-step (looked_up x handle n) g h = Bound-add_found g (find_function x handle n) h

    Bound-run :
        (es : List Event) (g : Got)
        → Bound g.global_offset_table_map
        → Bound (run table_max es g).global_offset_table_map
    unfolding run
    Bound-run [] g h = h
    Bound-run (e ∷ es) g h = Bound-run es (step table_max e g) (Bound-step e g h)

    new_entry-Bound :
        (g g' : Got) (o : Option ℕ)
        → find name g.global_offset_table_map ≡ none
        → new_entry table_max name g o ≡ ok (i, g')
        → find name g'.missing_global_offset_entries ≡ none
        → Bound g'.global_offset_table_map
    unfolding new_entry
    new_entry-Bound g g' (some f) x e m = elim (Bool-cases (ltb (length g.table) table_max)) [
      | inr t ↦ let bad = rw t at e in cc
      | inl t ↦
          let made = rw t at e in
          let h : Got = record g {
            table = g.table ++ some f ∷ [];
            global_offset_table_map = insert name (length g.table) g.global_offset_table_map;
          } in
          let index : length g.table ≡ i = cc in
          let same : h ≡ g' = cc in
          sym (ap (λ y. find name y.global_offset_table_map) same)
          ∙ (inserted (length g.table) g.global_offset_table_map x ∙ ap some index)
    ]
    new_entry-Bound g g' none x e m = elim (Bool-cases (ltb (length g.table) table_max)) [
      | inr t ↦ let bad = rw t at e in cc
      | inl t ↦
          let made = rw t at e in
          let h : Got = record g {
            table = g.table ++ none ∷ [];
            missing_global_offset_entries =
                insert name (length g.table) g.missing_global_offset_entries;
          } in
          let same : h ≡ g' = cc in
          let there : find name h.missing_global_offset_entries ≡ none =
            ap (λ y. find name y.missing_global_offset_entries) same ∙ m in
          absurd (never (length g.table) g.missing_global_offset_entries there)
    ]

    -- The entry that an import leaves, unless it is a placeholder.
    resolve_func-Bound :
        (exported : ℕ → Option ℕ) (g g' : Got)
        → resolve_func table_max exported name g ≡ ok (i, g')
        → find name g'.missing_global_offset_entries ≡ none
        → Bound g'.global_offset_table_map
    unfolding resolve_func
    resolve_func-Bound exported g g' e m =
        elim (Option-cases (find name g.global_offset_table_map)) [
          | inr (j, x) ↦
              let e' : entry_or_new table_max name g (exported name) (some j) ≡ ok (i, g') =
                sym (ap (entry_or_new table_max name g (exported name)) x) ∙ e in
              let index : j ≡ i = cc in
              let same : g ≡ g' = cc in
              sym (ap (λ y. find name y.global_offset_table_map) same) ∙ (x ∙ ap some index)
          | inl x ↦
              let e' : new_entry table_max name g (exported name) ≡ ok (i, g') =
                sym (ap (entry_or_new table_max name g (exported name)) x) ∙ e in
              new_entry-Bound g g' (exported name) x e' m
        ]

    -- An import of GOT.func that did not become a placeholder has its index for good: whatever modules
    -- are added, imports resolved, placeholders filled and functions looked up after it, another import of the name, with
    -- whatever the modules then export, gets the same index and changes nothing.
    pub resolve_func-run :
        (exported exported' : ℕ → Option ℕ) (es : List Event) (g g' : Got)
        → resolve_func table_max exported name g ≡ ok (i, g')
        → find name g'.missing_global_offset_entries ≡ none
        → resolve_func table_max exported' name (run table_max es g') ≡ ok (i, run table_max es g')
    unfolding resolve_func
    resolve_func-run exported exported' es g g' e m =
        rw (Bound-run es g' (resolve_func-Bound exported g g' e m)) refl
