-- ===== src/MemoryMappedFile/Lifetimes.antt =====
-- memory_mapped_file.hpp, the ownership note: objects made, moved, assigned and destroyed.
use trading_engine_hh.Base.{
  ℕ, ◌<◌, ◌≡◌, ◌≢◌, refl, sym, inl, inr, List, ◌++◌, length, ◌==◌, ==_iff, Bool-cases, Result, ok,
  err, arith,
}
use mathlib.Core.Path.{subst}
use mathlib.Core.List.{Perm}
use mathlib.Core.List.Perm
use trading_engine_hh.MemoryMappedFile.{
  MemoryMappedFile, empty_view, MapError, Objects, object, put, destroy, move_assign, emplace_moved,
  emplace_made,
}
use trading_engine_hh.MemoryMappedFile.Ownership.{
  region, owned, Manages, owned-put, owned-object, owned-last, put-put_comm, object-put_ne,
  length-put,
}

module _ {P W K : Type 0} (key : MemoryMappedFile → K) (regions : W → List K)
    (make : P → W → Result MapError MemoryMappedFile × W)
    (release : MemoryMappedFile → W → MemoryMappedFile × W)
    (law : Manages key regions make release) where
  -- The regions mapped are those that the objects own, each as often as it is owned.
  abbrev pub IsOwned : Objects × W → Type 0
  IsOwned (os, w) = Perm (regions w) (owned key os)

  released :
      (os : Objects) (i : ℕ) (w : W)
      → IsOwned (os, w)
      → IsOwned (put os i (release (object os i) w).0, (release (object os i) w).1)
  released os i w h =
      law.frees (object os i) w _
        (Perm.trans h (owned-object key os i _ (law.leaves_none (object os i) w)))

  destroy-IsOwned : (i : ℕ) (s : Objects × W) → IsOwned s → IsOwned (destroy release i s)
  unfolding destroy
  destroy-IsOwned i (os, w) h = released os i w h

  move_assign-IsOwned :
      (i j : ℕ) (s : Objects × W) → i < length s.0 → IsOwned s → IsOwned (move_assign release i j s)
  unfolding move_assign
  move_assign-IsOwned i j (os, w) hi h = elim (Bool-cases (i == j)) [
    | inl self ↦ rw self h
    | inr other ↦
        rw other (Perm.trans (released os i w h) (taken_over (λ e. cc (other, (==_iff i j).1 e))))
  ]
    where
      m : MemoryMappedFile
      m = (release (object os i) w).0

      emptied : Objects
      emptied = put (put os j empty_view) i m

      taken_over :
          i ≢ j
          → Perm (owned key (put os i m)) (owned key (put (put os i (object os j)) j empty_view))
      taken_over ne =
          Perm.trans
            (subst
              (λ (o : MemoryMappedFile).
                Perm (owned key (put os i m)) (region key o ++ owned key emptied))
              (object-put_ne os i j m ne)
              (subst
                (λ t.
                  Perm (owned key (put os i m)) (region key (object (put os i m) j) ++ owned key t))
                (put-put_comm os i j m empty_view ne)
                (owned-object key (put os i m) j empty_view refl)))
            (Perm.symm (
              subst (λ t. Perm (owned key t) (region key (object os j) ++ owned key emptied))
                (sym (put-put_comm os i j (object os j) empty_view ne))
                (owned-put key (put os j empty_view) i (object os j) m
                  (omega (arith, hi, length-put os j empty_view))
                  (law.leaves_none (object os i) w))))

  emplace_moved-IsOwned : (j : ℕ) (s : Objects × W) → IsOwned s → IsOwned (emplace_moved j s)
  unfolding emplace_moved
  emplace_moved-IsOwned j (os, w) h = Perm.trans h (
      Perm.trans (owned-object key os j empty_view refl)
        (owned-last key (put os j empty_view) (object os j)))

  emplace_made-IsOwned :
      (path : P) (os : Objects) (w : W) (t : Result MapError MemoryMappedFile × W)
      → make path w ≡ t
      → IsOwned (os, w)
      → IsOwned (emplace_made os t)
  emplace_made-IsOwned path os w (ok m, w') e h =
      rw (law.makes path w w' m e)
        (Perm.trans (Perm.append_left (region key m) h) (owned-last key os m))
  emplace_made-IsOwned path os w (err x, w') e h = rw (law.throws path w w' x e) h

  -- What a program does with its objects, a step at a time.
  pub data Step : Objects × W → Objects × W → Type 0 where
    made : (path : P) (os : Objects) (w : W) → Step (os, w) (emplace_made os (make path w))
    moved : (j : ℕ) (s : Objects × W) → Step s (emplace_moved j s)
    assigned : (i j : ℕ) (s : Objects × W) → i < length s.0 → Step s (move_assign release i j s)
    destroyed : (i : ℕ) (s : Objects × W) → Step s (destroy release i s)

  pub data Reach (s : Objects × W) : Objects × W → Type 0 where
    here : Reach s s
    next : {t u : Objects × W} → Reach s t → Step t u → Reach s u

  Step-IsOwned : {s t : Objects × W} → Step s t → IsOwned s → IsOwned t
  Step-IsOwned (made path os w) h = emplace_made-IsOwned path os w (make path w) refl h
  Step-IsOwned (moved j s) h = emplace_moved-IsOwned j s h
  Step-IsOwned (assigned i j s hi) h = move_assign-IsOwned i j s hi h
  Step-IsOwned (destroyed i s) h = destroy-IsOwned i s h

  -- From a state in which the mapped regions are those that the objects own, every state that a
  -- program reaches by making, moving, assigning and destroying objects is such a state: no region is
  -- left without an owner, and none has two.
  pub Reach-IsOwned : {s t : Objects × W} → IsOwned s → Reach s t → IsOwned t
  Reach-IsOwned h here = h
  Reach-IsOwned h (next r st) = Step-IsOwned st (Reach-IsOwned h r)
