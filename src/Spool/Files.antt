-- ===== src/Spool/Files.antt =====
-- The sorted listing of probe/spool.py `_files`: each file of the directory, once.
use seismograph.Prelude.{
  suc, ◌≡◌, refl, true, false, List, [], ◌∷◌, length, either, ◌==◌, nat_eq, arith,
}
use seismograph.Dict.Keys.{contains, Distinct, Within}
use seismograph.Spool.Store.{Name, name_eq, same_name_iff, insert, sort}

contains-insert :
    (n k : Name) (ms : List Name) → contains k (insert n ms) ≡ either (n == k) (contains k ms)
contains-insert n k [] = refl
contains-insert n k (m ∷ ms) = ground (arith, contains-insert n k ms)

length-insert : (n : Name) (ms : List Name) → length (insert n ms) ≡ suc (length ms)
length-insert n [] = refl
length-insert n (m ∷ ms) = ground (arith, length-insert n ms)

Distinct-insert :
    (n : Name) (ms : List Name) → contains n ms ≡ false → Distinct ms → Distinct (insert n ms)
Distinct-insert n [] c u = (refl, tt)
Distinct-insert n (m ∷ ms) c u =
    ground
      (arith, Distinct-insert n ms, contains-insert n m ms, same_name_iff n m, same_name_iff m n)

pub contains-sort : (k : Name) (ns : List Name) → contains k (sort ns) ≡ contains k ns
contains-sort k [] = refl
contains-sort k (n ∷ ns) = ground (arith, contains-insert n k (sort ns), contains-sort k ns)

pub length-sort : (ns : List Name) → length (sort ns) ≡ length ns
length-sort [] = refl
length-sort (n ∷ ns) = ground (arith, length-insert n (sort ns), length-sort ns)

pub Distinct-sort : (ns : List Name) → Distinct ns → Distinct (sort ns)
Distinct-sort [] u = tt
Distinct-sort (n ∷ ns) u =
    Distinct-insert n (sort ns) (ground (arith, contains-sort n ns, u.0)) (Distinct-sort ns u.1)

Within-sort_from :
    (ms ns : List Name) → ((k : Name) → contains k ms ≡ true → contains k ns ≡ true) → Within ms ns
Within-sort_from [] ns h = tt
Within-sort_from (m ∷ ms) ns h =
    (h m (ground (arith, same_name_iff m m)), Within-sort_from ms ns (λ k c. h k (ground arith)))

pub Within-sort : (ns : List Name) → Within (sort ns) ns
Within-sort ns = Within-sort_from (sort ns) ns (λ k c. ground (arith, contains-sort k ns))
