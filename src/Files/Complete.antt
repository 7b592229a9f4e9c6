-- ===== src/Files/Complete.antt =====
-- The entries that are complete in a buffer of `copyDirentsToWasiBuffer`
-- (src/storage/FileDescriptor.cpp).
use faasm.Prelude.{
  ℕ, zero, suc, ◌+◌, ◌-◌, ◌≤◌, ◌<◌, ◌≡◌, refl, ap, ◌∙◌, true, false, List, [], ◌∷◌, ◌++◌, ltb,
  length, All, arith, Bool-cases, inl, inr,
}
use faasm.Files.Dirents.{DirEnt}
use faasm.Files.Listing.{fill, drop, append_assoc}

abbrev pub take : ℕ → List DirEnt → List DirEnt
take zero ds = []
take (suc n) [] = []
take (suc n) (d ∷ ds) = d ∷ take n ds

-- Whole entries, each with its path.
abbrev pub encode : (DirEnt → List ℕ) → List DirEnt → List ℕ
encode enc [] = []
encode enc (d ∷ ds) = (enc d ++ d.path) ++ encode enc ds

-- Every entry fits the buffer.
abbrev pub Fit : ℕ → ℕ → List DirEnt → Type 0
Fit size buffer_len ds = All (λ d. size + length d.path ≤ buffer_len) ds

pub fill-encode :
    (size : ℕ) (enc : DirEnt → List ℕ) (left : ℕ) (ds : List DirEnt)
    → (tail : List ℕ) × ((fill size enc left ds).bytes
        ≡ encode enc (take (fill size enc left ds).entries ds) ++ tail)
unfolding fill
fill-encode size enc left [] = ([], refl)
fill-encode size enc left (d ∷ ds) = elim (Bool-cases (ltb left size)) [
  | inl t ↦ rw t ([], refl)
  | inr t ↦ rw t (elim (Bool-cases (ltb (left - size) (length d.path))) [
    | inl u ↦ rw u (enc d, refl)
    | inr u ↦ rw u (
        let f = fill size enc (left - size - length d.path) ds in
        let (tail, e) = fill-encode size enc (left - size - length d.path) ds in
        let more : f.entries + 1 ≡ suc f.entries = omega arith in
        (
          tail,
          rw more (
              ap (λ b. (enc d ++ d.path) ++ b) e
              ∙ append_assoc (enc d ++ d.path) (encode enc (take f.entries ds)) tail),
        ))
  ])
]

-- A full buffer that every entry fits holds one.
pub fill-progress :
    (size : ℕ) (enc : DirEnt → List ℕ) (buffer_len : ℕ) (ds : List DirEnt)
    → Fit size buffer_len ds
    → (fill size enc buffer_len ds).full ≡ true
    → 0 < (fill size enc buffer_len ds).entries
unfolding fill
fill-progress size enc buffer_len [] h t = cc
fill-progress size enc buffer_len (d ∷ ds) (h, hs) t =
    let a : ltb buffer_len size ≡ false = ground (arith, h) in
    let b : ltb (buffer_len - size) (length d.path) ≡ false = ground (arith, h) in
    rw (a, b) (omega arith)

pub drop_more : (n k : ℕ) (l : List DirEnt) → drop (n + k) l ≡ drop k (drop n l)
drop_more zero k l = let e : 0 + k ≡ k = omega arith in rw e refl
drop_more (suc n) zero [] = let e : suc n + 0 ≡ suc n = omega arith in rw e refl
drop_more (suc n) (suc k) [] = let e : suc n + suc k ≡ suc (n + suc k) = omega arith in rw e refl
drop_more (suc n) k (d ∷ l) =
    let e : suc n + k ≡ suc (n + k) = omega arith in rw e (drop_more n k l)

pub length-drop-sub : (k : ℕ) (ds : List DirEnt) → length (drop k ds) ≡ length ds - k
length-drop-sub zero ds = omega arith
length-drop-sub (suc k) [] = omega arith
length-drop-sub (suc k) (d ∷ ds) = omega (arith, length-drop-sub k ds)

pub Fit-drop :
    (size buffer_len k : ℕ) (ds : List DirEnt)
    → Fit size buffer_len ds
    → Fit size buffer_len (drop k ds)
Fit-drop size buffer_len zero ds h = h
Fit-drop size buffer_len (suc k) [] h = tt
Fit-drop size buffer_len (suc k) (d ∷ ds) (h, hs) = Fit-drop size buffer_len k ds hs

pub fill-none :
    (size : ℕ) (enc : DirEnt → List ℕ) (left : ℕ) (ds : List DirEnt)
    → length ds ≡ 0
    → length (fill size enc left ds).bytes ≡ 0
unfolding fill
fill-none size enc left [] h = refl
fill-none size enc left (d ∷ ds) h = absurd (omega (arith, h))
