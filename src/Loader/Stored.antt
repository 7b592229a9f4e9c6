-- ===== src/Loader/Stored.antt =====
-- Uploading a file and loading it again (src/storage/FileLoader.cpp).
use faasm.Prelude.{
  ℕ, ◌≡◌, refl, ◌∙◌, Bool, true, false, not, ◌&&◌, Option, some, List, [], ◌∷◌, if◌then◌else◌,
  Bool-cases, inl, inr,
}
use faasm.Files.Shared.{Local, absent, file, bytes, same_path}
use faasm.Files.Sync.{same_path_refl}
use faasm.Loader.{
  Stores, put_key, put_file, trim_leading_slashes, is_empty, load_file_bytes, upload_file_bytes,
  keep,
}

pub s3-upload :
    (use_cache : Bool) (path cache content k : List ℕ) (st : Stores)
    → (upload_file_bytes use_cache path cache content st).s3 k
      ≡ (if same_path k (trim_leading_slashes path) then some content else st.s3 k)
unfolding upload_file_bytes put_key put_file
s3-upload use_cache path cache content k st =
    elim (Bool-cases (use_cache && not (is_empty cache))) [ inl e ↦ rw e refl | inr e ↦ rw e refl ]

pub local-upload :
    (path cache content q : List ℕ) (st : Stores)
    → is_empty cache ≡ false
    → (upload_file_bytes true path cache content st).local_files q
      ≡ (if same_path q cache then file content else st.local_files q)
unfolding upload_file_bytes put_key put_file
local-upload path cache content q st h = rw h refl

pub local-other :
    (use_cache : Bool) (path cache content q : List ℕ) (st : Stores)
    → same_path q cache ≡ false
    → (upload_file_bytes use_cache path cache content st).local_files q ≡ st.local_files q
unfolding upload_file_bytes put_key put_file
local-other use_cache path cache content q st h =
    elim (Bool-cases (use_cache && not (is_empty cache))) [
      | inl e ↦ rw (e, h) refl
      | inr e ↦ rw e refl
    ]

-- A file loaded from the store, when it is not in the local files.
pub load-stored :
    (use_cache tolerate : Bool) (path cache content : List ℕ) (st : Stores)
    → st.s3 (trim_leading_slashes path) ≡ some content
    → (use_cache ≡ true → st.local_files cache ≡ absent)
    → (load_file_bytes use_cache path cache tolerate st).0 ≡ bytes content
unfolding load_file_bytes
load-stored true tolerate path cache content st s l = rw (l refl, s) (kept content)
  where
    kept : (x : List ℕ) → (keep true cache (bytes x) st).0 ≡ bytes x
    kept [] = refl
    kept (b ∷ x) = refl
load-stored false tolerate path cache content st s l = rw s (kept content)
  where
    kept : (x : List ℕ) → (keep false cache (bytes x) st).0 ≡ bytes x
    kept [] = refl
    kept (b ∷ x) = refl

pub same_key : (p : List ℕ) (x y : Option (List ℕ)) → (if same_path p p then x else y) ≡ x
same_key p x y = rw (same_path_refl p) refl

load-uploaded :
    (use_cache tolerate : Bool) (path cache content : List ℕ) (st : Stores)
    → is_empty cache ≡ false
    → (load_file_bytes use_cache path cache tolerate
        (upload_file_bytes use_cache path cache content st)).0
      ≡ bytes content
unfolding load_file_bytes
load-uploaded true tolerate path cache content st h =
    rw (local-upload path cache content cache st h, same_path_refl cache) refl
load-uploaded false tolerate path cache content st h =
    load-stored false tolerate path cache content (upload_file_bytes false path cache content st)
      (s3-upload false path cache content (trim_leading_slashes path) st
        ∙ same_key (trim_leading_slashes path) (some content) (st.s3 (trim_leading_slashes path)))
      (λ e. cc)

-- Bytes that are uploaded with a local path are loaded again: by the loader that uploaded them, with
-- the same path; and on a host that has other local files, by a loader without local files, or with
-- them at a path where it has no file yet.
pub load_file_bytes-upload_file_bytes :
    (use_cache use_cache' tolerate : Bool) (path cache cache' content : List ℕ) (st : Stores)
    (other_files : List ℕ → Local)
    → is_empty cache ≡ false
    → (use_cache' ≡ true → other_files cache' ≡ absent)
    → ((load_file_bytes use_cache path cache tolerate
          (upload_file_bytes use_cache path cache content st)).0
        ≡ bytes content)
      × ((load_file_bytes use_cache' path cache' tolerate
            (record (upload_file_bytes use_cache path cache content st) {
              local_files = other_files;
            })).0
          ≡ bytes content)
load_file_bytes-upload_file_bytes use_cache use_cache' tolerate path cache cache' content st files h
      l =
    (
      load-uploaded use_cache tolerate path cache content st h,
      load-stored use_cache' tolerate path cache' content
          (record (upload_file_bytes use_cache path cache content st) { local_files = files })
          (s3-upload use_cache path cache content (trim_leading_slashes path) st
            ∙ same_key (trim_leading_slashes path) (some content)
                (st.s3 (trim_leading_slashes path)))
          l,
    )
