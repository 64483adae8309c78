-- ===== src/Redis/Memory.antt =====
-- A server in memory, for the examples: a dictionary of scores for each key.
use seismograph.Prelude.{
  ℕ, refl, String, [], leb, both, length, keep, if◌then◌else◌, Bool-cases, inl, inr, ◌==◌,
  string_eq,
}
use seismograph.Dict.{Dict, put, get-put}
use seismograph.Dict.Keys.{keys, Distinct, Distinct-put, Distinct-keep}
use seismograph.Dict.Live.{get-keep_value}
use seismograph.Redis.{Redis, RedisLaws}

abbrev pub ZSet : Type 0
ZSet = (d : Dict String ℕ) × Distinct (keys d)

abbrev at_key : String → (ZSet → ZSet) → (String → ZSet) → String → ZSet
at_key k f st j = if k == j then f (st j) else st j

abbrev pub memory : Redis
memory = record {
  Store = String → ZSet;
  zset = λ k st. (st k).0;
  zadd = λ k m s. at_key k (λ z. (put m s z.0, Distinct-put m s z.0 z.1));
  zrembelow =
      λ k c. at_key k (λ z. (keep (λ e. leb c e.1) z.0, Distinct-keep (λ e. leb c e.1) z.0 z.1));
  zcount = λ k lo hi st. length (keep (λ e. both (leb lo e.1) (leb e.1 hi)) (st k).0);
  expire = λ k seconds st. st;
  delete = λ k. at_key k (λ z. ([], tt));
}

abbrev pub no_sets : String → ZSet
no_sets k = ([], tt)

pub memory_laws : RedisLaws memory
memory_laws = record {
  zset-Distinct = λ k st. (st k).1;
  zset-zadd = λ k m j n s st. elim (Bool-cases (k == j)) [
    | inl here ↦ rw here (get-put m n s (st j).0)
    | inr other ↦ rw other refl
  ];
  zset-zrembelow = λ k j n c st. elim (Bool-cases (k == j)) [
    | inl here ↦ rw here (get-keep_value (leb c) n (st j).0 (st j).1)
    | inr other ↦ rw other refl
  ];
  zcount-zset = λ k lo hi st. refl;
  zset-expire = λ k j seconds st. refl;
  zset-delete = λ k j n st. elim (Bool-cases (k == j)) [
    | inl here ↦ rw here refl
    | inr other ↦ rw other refl
  ];
}
