-- ===== src/Spool/Order.antt =====
-- The order of file names that probe/spool.py `_files` sorts by.
use seismograph.Prelude.{
  ◌≡◌, refl, true, false, List, [], ◌∷◌, nat_eq, arith, Bool-cases, inl, inr, All,
}
use seismograph.Spool.Store.{Name, name_eq, name_le, insert, sort}

abbrev Before : Name → Name → Type 0
Before n m = name_le n m ≡ true

-- Every name is before all that follow it.
abbrev pub Sorted : List Name → Type 0
Sorted [] = Unit
Sorted (n ∷ ns) = All (λ m. name_le n m ≡ true) ns × Sorted ns

name_le_trans : (a b c : Name) → Before a b → Before b c → Before a c
name_le_trans [] b c p q = refl
name_le_trans (x ∷ a) [] c p q = absurd cc
name_le_trans (x ∷ a) (y ∷ b) [] p q = absurd cc
name_le_trans (x ∷ a) (y ∷ b) (z ∷ c) p q = ground (arith, name_le_trans a b c)

name_le_total : (a b : Name) → name_le a b ≡ false → Before b a
name_le_total [] b p = absurd cc
name_le_total (x ∷ a) [] p = refl
name_le_total (x ∷ a) (y ∷ b) p = ground (arith, name_le_total a b)

All-Before :
    (n m : Name) (ms : List Name)
    → Before n m
    → All (λ k. name_le m k ≡ true) ms
    → All (λ k. name_le n k ≡ true) ms
All-Before n m [] p h = tt
All-Before n m (k ∷ ms) p h = (name_le_trans n m k p h.0, All-Before n m ms p h.1)

All-insert :
    (k n : Name) (ms : List Name)
    → Before k n
    → All (λ m. name_le k m ≡ true) ms
    → All (λ m. name_le k m ≡ true) (insert n ms)
All-insert k n [] p h = (p, tt)
All-insert k n (m ∷ ms) p h = elim (Bool-cases (name_le n m)) [
  | inl first ↦ rw first (p, (h.0, h.1))
  | inr later ↦ rw later (h.0, All-insert k n ms p h.1)
]

insert-Sorted : (n : Name) (ms : List Name) → Sorted ms → Sorted (insert n ms)
insert-Sorted n [] h = (tt, tt)
insert-Sorted n (m ∷ ms) h = elim (Bool-cases (name_le n m)) [
  | inl first ↦ rw first ((first, All-Before n m ms first h.0), (h.0, h.1))
  | inr later ↦ rw later (All-insert m n ms (name_le_total n m later) h.0, insert-Sorted n ms h.1)
]

pub sort-Sorted : (ns : List Name) → Sorted (sort ns)
sort-Sorted [] = tt
sort-Sorted (n ∷ ns) = insert-Sorted n (sort ns) (sort-Sorted ns)
