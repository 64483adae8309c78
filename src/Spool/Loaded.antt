-- ===== src/Spool/Loaded.antt =====
-- probe/spool.py `_load` names the file that it read.
use seismograph.Prelude.{
  string_eq, Option-cases, ℕ, ◌≡◌, String, false, Option, none, some, ◌==◌, Bool-cases, inl, inr,
}
use mathlib.Core.Path.{sym}
use seismograph.Dict.{or_default, get}
use seismograph.Spool.{Host, Result, ok, value_error, other_error}
use seismograph.Spool.Body.{text_at, validate_body, Object, Headers}
use seismograph.Spool.Store.{bind, load_object, load_signed, matched, Name, name_eq, Entry, load}

module _ (host : Host) where
  -- What `_load` returns is about the file it read.
  abbrev pub About : Name → Result (Entry host) → Type 0
  About n r = (e : Entry host) → r ≡ ok e → e.path ≡ n

  matched-About :
      (n : Name) (o : Object host) (body : host.Bytes) (created : ℕ) (h : Headers)
      (id : Result String)
      → About n (matched host n o body created h id)
  unfolding matched
  matched-About n o body created h (ok id) = elim (Bool-cases (text_at host "batch_id" o == id)) [
    | inl same ↦ rw same (λ e q. sym (cc q))
    | inr other ↦ rw other (λ e q. absurd cc)
  ]
  matched-About n o body created h value_error = λ e q. absurd cc
  matched-About n o body created h other_error = λ e q. absurd cc

  load_signed-About :
      (n : Name) (o : Object host) (body : Option host.Bytes) (created : Result ℕ)
      (h : Result Headers)
      → About n (load_signed host n o body created h)
  unfolding load_signed
  load_signed-About n o (some b) (ok c) (ok h) = matched-About n o b c h (validate_body host b)
  load_signed-About n o (some b) (ok c) value_error = λ e q. absurd cc
  load_signed-About n o (some b) (ok c) other_error = λ e q. absurd cc
  load_signed-About n o (some b) value_error h = λ e q. absurd cc
  load_signed-About n o (some b) other_error h = λ e q. absurd cc
  load_signed-About n o none c h = λ e q. absurd cc

  load_object-About : (n : Name) (o : Object host) → About n (load_object host n o)
  unfolding load_object
  load_object-About n o =
      elim (Bool-cases (or_default false (bind (get "format" o) (λ v. some (host.is_one v))))) [
        | inl known ↦ rw known (load_signed-About n o _ _ _)
        | inr unknown ↦ rw unknown (λ e q. absurd cc)
      ]

  pub load-About : (n : Name) (content : host.Bytes) → About n (load host n content)
  unfolding load
  load-About n content = elim (Option-cases (host.loads content)) [
    | inl unread ↦ rw (unread, load) (λ e q. absurd cc)
    | inr (v, read) ↦ elim (Option-cases (host.as_object v)) [
      | inl other ↦ rw (read, other, load) (λ e q. absurd cc)
      | inr (o, object) ↦ rw (read, object, load) (load_object-About n o)
    ]
  ]
