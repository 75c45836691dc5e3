-- ===== src/MemoryMappedFile/Ownership.antt =====
-- memory_mapped_file.hpp, the ownership note: which regions the objects of a table own.
use trading_engine_hh.Base.{
  ℕ, zero, suc, ◌<◌, ◌≡◌, ◌≢◌, refl, sym, ap, ◌∙◌, List, [], ◌∷◌, ◌++◌, append-nil, append_assoc,
  length, ◌==◌, if◌then◌else◌, Result, ok, err, arith,
}
use mathlib.Core.Path.{subst}
use mathlib.Core.List.{Perm, perm_append_comm}
use mathlib.Core.List.Perm
use trading_engine_hh.MemoryMappedFile.{MemoryMappedFile, MapError, Objects, object, put}

-- The region that an object owns: none, if its address is `nullptr`.
abbrev pub region : {K : Type 0} → (MemoryMappedFile → K) → MemoryMappedFile → List K
region key m = if m.data_at == 0 then [] else key m ∷ []

abbrev pub owned : {K : Type 0} → (MemoryMappedFile → K) → Objects → List K
owned key [] = []
owned key (o ∷ os) = region key o ++ owned key os

-- What a platform's constructor and `release_` do to the regions mapped in the process.
pub record Manages {P W K : Type 0} (key : MemoryMappedFile → K) (regions : W → List K)
    (make : P → W → Result MapError MemoryMappedFile × W)
    (release : MemoryMappedFile → W → MemoryMappedFile × W) : Type 0 where
  pub makes :
      (path : P) (w w' : W) (m : MemoryMappedFile)
      → make path w ≡ (ok m, w')
      → regions w' ≡ region key m ++ regions w
  pub throws :
      (path : P) (w w' : W) (x : MapError) → make path w ≡ (err x, w') → regions w' ≡ regions w
  pub frees :
      (m : MemoryMappedFile) (w : W) (others : List K)
      → Perm (regions w) (region key m ++ others)
      → Perm (regions (release m w).1) others
  pub leaves_none : (m : MemoryMappedFile) (w : W) → region key (release m w).0 ≡ []

-- A table of the process that neither of them changes for good: that of the open descriptors.
pub record KeepsTable {P W X : Type 0} (table : W → X)
    (make : P → W → Result MapError MemoryMappedFile × W)
    (release : MemoryMappedFile → W → MemoryMappedFile × W) : Type 0 where
  pub makes : (path : P) (w : W) → table (make path w).1 ≡ table w
  pub releases : (m : MemoryMappedFile) (w : W) → table (release m w).1 ≡ table w

-- The same regions, up to order, and the same table.
module _ {W K X : Type 0} (regions : W → List K) (table : W → X) where
  abbrev pub Restored : W → W → Type 0
  Restored w w' = Perm (regions w') (regions w) × (table w' ≡ table w)

  pub unchanged : (w : W) → Restored w w
  unchanged w = (Perm.refl _, refl)

  pub unchanged_twice : (u v w : W) → Restored u v → Restored v w → Restored u w
  unchanged_twice u v w (p, e) (q, f) = (Perm.trans q p, f ∙ e)

module _ {K : Type 0} (key : MemoryMappedFile → K) where
  pub owned-append : (xs ys : Objects) → owned key (xs ++ ys) ≡ owned key xs ++ owned key ys
  owned-append [] ys = refl
  owned-append (x ∷ xs) ys =
      ap (λ t. region key x ++ t) (owned-append xs ys)
      ∙ sym (append_assoc (region key x) (owned key xs) (owned key ys))

  pub perm_front : (a b c : List K) → Perm (a ++ (b ++ c)) (b ++ (a ++ c))
  perm_front a b c =
      subst (λ t. Perm t (b ++ (a ++ c))) (append_assoc a b c)
        (subst (λ t. Perm ((a ++ b) ++ c) t) (append_assoc b a c)
          (Perm.append_right c (perm_append_comm a b)))

  -- An object in the table, and the table with that object emptied.
  pub owned-put :
      (os : Objects) (i : ℕ) (a e : MemoryMappedFile)
      → i < length os
      → region key e ≡ []
      → Perm (owned key (put os i a)) (region key a ++ owned key (put os i e))
  owned-put [] i a e h n = absurd (omega arith)
  owned-put (o ∷ os) zero a e h n =
      subst (λ t. Perm (region key a ++ owned key os) (region key a ++ (t ++ owned key os))) (sym n)
        (Perm.refl _)
  owned-put (o ∷ os) (suc i) a e h n =
      Perm.trans (Perm.append_left (region key o) (owned-put os i a e (omega arith) n))
        (perm_front (region key o) (region key a) (owned key (put os i e)))

  -- The same for the object that stands there; an address past the table has none.
  pub owned-object :
      (os : Objects) (i : ℕ) (e : MemoryMappedFile)
      → region key e ≡ []
      → Perm (owned key os) (region key (object os i) ++ owned key (put os i e))
  owned-object [] i e n = Perm.refl _
  owned-object (o ∷ os) zero e n =
      subst (λ t. Perm (region key o ++ owned key os) (region key o ++ (t ++ owned key os))) (sym n)
        (Perm.refl _)
  owned-object (o ∷ os) (suc i) e n =
      Perm.trans (Perm.append_left (region key o) (owned-object os i e n))
        (perm_front (region key o) (region key (object os i)) (owned key (put os i e)))

pub put-put_comm :
    (os : Objects) (i j : ℕ) (a b : MemoryMappedFile)
    → i ≢ j
    → put (put os i a) j b ≡ put (put os j b) i a
put-put_comm [] i j a b h = refl
put-put_comm (o ∷ os) zero zero a b h = absurd (h refl)
put-put_comm (o ∷ os) zero (suc j) a b h = refl
put-put_comm (o ∷ os) (suc i) zero a b h = refl
put-put_comm (o ∷ os) (suc i) (suc j) a b h =
    ap (λ t. o ∷ t) (put-put_comm os i j a b (λ e. h (ap suc e)))

pub object-put_ne :
    (os : Objects) (i j : ℕ) (a : MemoryMappedFile) → i ≢ j → object (put os i a) j ≡ object os j
object-put_ne [] i j a h = refl
object-put_ne (o ∷ os) zero zero a h = absurd (h refl)
object-put_ne (o ∷ os) zero (suc j) a h = refl
object-put_ne (o ∷ os) (suc i) zero a h = refl
object-put_ne (o ∷ os) (suc i) (suc j) a h = object-put_ne os i j a (λ e. h (ap suc e))

pub length-put : (os : Objects) (i : ℕ) (a : MemoryMappedFile) → length (put os i a) ≡ length os
length-put [] i a = refl
length-put (o ∷ os) zero a = refl
length-put (o ∷ os) (suc i) a = ap suc (length-put os i a)

-- A new object at the end of the table.
pub owned-last :
    {K : Type 0} (key : MemoryMappedFile → K) (os : Objects) (m : MemoryMappedFile)
    → Perm (region key m ++ owned key os) (owned key (os ++ (m ∷ [])))
owned-last key os m =
    subst (λ t. Perm (region key m ++ owned key os) t) (sym (owned-append key os (m ∷ [])))
      (subst (λ t. Perm (region key m ++ owned key os) (owned key os ++ t))
        (sym (append-nil (region key m))) (perm_append_comm (region key m) (owned key os)))
