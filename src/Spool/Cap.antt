-- ===== src/Spool/Cap.antt =====
-- The cap of probe/spool.py `put`, and what a refused batch does.
use seismograph.Prelude.{
  ℕ, zero, suc, ◌+◌, ◌-◌, ◌≤◌, ◌≡◌, ◌≢◌, refl, min, String, List, [], ◌∷◌, length, length-map, take,
  arith, false,
}
use seismograph.Prelude.Eq.{Eq}
use seismograph.Dict.{Dict}
use seismograph.Dict.Keys.{
  contains, Distinct, Within, keys, length-remove, Distinct-remove, Within-remove, Distinct-put,
}
use seismograph.Spool.{Host, Result, ok, value_error, other_error}
use seismograph.Spool.Body.{Headers, validate_body, check_headers}
use seismograph.Spool.Store.{
  Name, name_eq, Fields, Spool, files_of, file_name, unlink, unlink_all, enforce_cap, store,
  put_checked, put_batch,
}
use seismograph.Spool.Files.{length-sort, Distinct-sort, Within-sort}

module _ {ℓ} {K : Type ℓ} ⦃e : Eq K⦄ where
  contains-take :
      (n : ℕ) (k : K) (xs : List K) → contains k xs ≡ false → contains k (take n xs) ≡ false
  contains-take zero k xs h = refl
  contains-take (suc n) k [] h = refl
  contains-take (suc n) k (x ∷ xs) h = ground (arith, contains-take n k xs)

  Distinct-take : (n : ℕ) (xs : List K) → Distinct xs → Distinct (take n xs)
  Distinct-take zero xs u = tt
  Distinct-take (suc n) [] u = tt
  Distinct-take (suc n) (x ∷ xs) u = (contains-take n x xs u.0, Distinct-take n xs u.1)

  Within-take : (n : ℕ) (xs ys : List K) → Within xs ys → Within (take n xs) ys
  Within-take zero xs ys h = tt
  Within-take (suc n) [] ys h = tt
  Within-take (suc n) (x ∷ xs) ys h = (h.0, Within-take n xs ys h.1)

length-take : {A : Type 0} (n : ℕ) (xs : List A) → length (take n xs) ≡ min n (length xs)
length-take zero xs = omega arith
length-take (suc n) [] = omega arith
length-take (suc n) (x ∷ xs) = omega (arith, length-take n xs)

module _ (host : Host) where
  unlink_all-length :
      (ns : List Name) (s : Spool host)
      → Distinct ns
      → Within ns (keys s.files)
      → Distinct (keys s.files)
      → length (unlink_all host s ns).files + length ns ≡ length s.files
  unfolding unlink_all unlink
  unlink_all-length [] s f h u = omega arith
  unlink_all-length (n ∷ ns) s f h u = omega (
    arith,
    length-remove n s.files u h.0,
    unlink_all-length ns (unlink host s n) f.1 (Within-remove n ns s.files f.0 h.1)
        (Distinct-remove n s.files u),
  )

  enforce_cap-le :
      (s : Spool host) → Distinct (keys s.files) → length (enforce_cap host s).files ≤ s.max_files
  unfolding enforce_cap
  enforce_cap-le s u =
      let files = files_of host s in
      let n = length files - s.max_files in
      omega (
        arith,
        unlink_all-length (take n files) s (Distinct-take n files (Distinct-sort (keys s.files) u))
            (Within-take n files (keys s.files) (Within-sort (keys s.files))) u,
        length-take n files,
        length-sort (keys s.files),
        length-map s.files (λ x. x.0),
      )

  module _ (dumps : Fields → host.Bytes) (s : Spool host) (body : host.Bytes) (now : ℕ) where
    Capped : Result Name × Spool host → Type 0
    Capped out =
        ((n : Name) → out.0 ≡ ok n → length out.1.files ≤ s.max_files)
        × (((n : Name) → out.0 ≢ ok n) → out.1 ≡ s)

    put_checked-Capped :
        (id : Result String) (h : Result Headers)
        → Distinct (keys s.files)
        → Capped (put_checked host dumps s body now id h)
    unfolding Capped put_checked store
    put_checked-Capped (ok id) (ok h) u = (
      λ n e. enforce_cap-le _ (Distinct-put (file_name now id) _ s.files u),
      λ no. absurd (no (file_name now id) refl),
    )
    put_checked-Capped (ok id) value_error u = (λ n e. absurd cc, λ no. refl)
    put_checked-Capped (ok id) other_error u = (λ n e. absurd cc, λ no. refl)
    put_checked-Capped value_error (ok h) u = (λ n e. absurd cc, λ no. refl)
    put_checked-Capped value_error value_error u = (λ n e. absurd cc, λ no. refl)
    put_checked-Capped value_error other_error u = (λ n e. absurd cc, λ no. refl)
    put_checked-Capped other_error h u = (λ n e. absurd cc, λ no. refl)

    -- In a directory without two files of one name: after a `put` that returns a path, at most
    -- `max_files` files are left; a `put` that raises leaves the spool as it was.
    pub put_capped :
        (headers : Dict String String)
        → Distinct (keys s.files)
        → ((n : Name)
            → (put_batch host dumps s body headers now).0 ≡ ok n
            → length (put_batch host dumps s body headers now).1.files ≤ s.max_files)
          × (((n : Name) → (put_batch host dumps s body headers now).0 ≢ ok n)
              → (put_batch host dumps s body headers now).1 ≡ s)
    unfolding put_batch Capped
    put_capped headers u =
        put_checked-Capped (validate_body host body) (check_headers host.lower headers) u
