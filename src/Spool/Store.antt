-- ===== src/Spool/Store.antt =====
-- probe/spool.py `Spool`: the directory, `put` with its cap, and `_load`.
use seismograph.Prelude.{
  ℕ, zero, suc, ◌+◌, ◌-◌, ◌/◌, ◌%◌, ◌≡◌, ◌↔◌, String, Bool, true, false, Option, none, some, List,
  [], ◌∷◌, ◌++◌, ltb, length, take, both, either, if◌then◌else◌, ◌==◌, nat_eq, string_eq, arith,
}
use seismograph.Prelude.Eq.{Eq}
use seismograph.Dict.{Dict, get, put, remove, or_default}
use seismograph.Dict.Keys.{keys}
use seismograph.Schema.{codes}
use seismograph.Spool.{Host, Result, ok, value_error, other_error}
use seismograph.Spool.Body.{Headers, Object, check_headers, sized, validate_body, text_at}

-- The name of a file, as the code points that `sorted` compares.
abbrev pub Name : Type 0
Name = List ℕ

abbrev pub same_name : Name → Name → Bool
same_name [] [] = true
same_name (x ∷ xs) (y ∷ ys) = both (x == y) (same_name xs ys)
same_name _ _ = false

pub same_name_iff : (a b : Name) → (same_name a b ≡ true) ↔ (a ≡ b)
same_name_iff [] [] = ground arith
same_name_iff [] (y ∷ ys) = ground arith
same_name_iff (x ∷ xs) [] = ground arith
same_name_iff (x ∷ xs) (y ∷ ys) = ground (arith, same_name_iff xs ys)

instance abbrev pub name_eq : Eq Name
name_eq = record { beq = same_name; beq_iff = same_name_iff }

-- a <= b
abbrev pub name_le : Name → Name → Bool
name_le [] b = true
name_le (x ∷ xs) [] = false
name_le (x ∷ xs) (y ∷ ys) = either (ltb x y) (both (x == y) (name_le xs ys))

-- The last `k` decimal digits of a number.
abbrev digits : ℕ → ℕ → Name → Name
digits zero n acc = acc
digits (suc k) n acc = digits k (n / 10) ((b'0' + n % 10) ∷ acc)

-- f"{int(now * 1000):015d}-{batch_id}.batch.json"
unfoldable pub file_name : ℕ → String → Name
file_name now batch_id = digits 15 now [] ++ codes "-" ++ codes batch_id ++ codes ".batch.json"

abbrev pub insert : Name → List Name → List Name
insert n [] = n ∷ []
insert n (m ∷ ms) = let rest = insert n ms in if name_le n m then n ∷ m ∷ ms else m ∷ rest

abbrev pub sort : List Name → List Name
sort [] = []
sort (n ∷ ns) = insert n (sort ns)

-- What `put` writes.
pub record Fields : Type 0 where
  pub format : ℕ
  pub batch_id : String
  pub created_at : ℕ
  pub body_b64 : String
  pub x_signature : String
  pub x_public_key : String

abbrev pub bind {ℓ κ} : {A : Type ℓ} {B : Type κ} → Option A → (A → Option B) → Option B
bind none f = none
bind (some a) f = f a

module _ (host : Host) where
  pub record Spool : Type 0 where
    -- milliseconds, and at least 1
    pub max_age : ℕ
    pub max_files : ℕ
    -- the regular files with the suffix, and those in quarantine
    pub files : Dict Name host.Bytes
    pub quarantine : Dict Name host.Bytes

  -- `__init__` over what the directory holds; none is the ValueError
  unfoldable pub init : ℕ → ℕ → Dict Name host.Bytes → Dict Name host.Bytes → Option Spool
  init max_age max_files files quarantine =
      if either (max_age == 0) (max_files == 0)
      then none
      else some (record {
        max_age = max_age;
        max_files = max_files;
        files = files;
        quarantine = quarantine;
      })

  -- `_files`: oldest first
  abbrev pub files_of : Spool → List Name
  files_of s = sort (keys s.files)

  unfoldable pub unlink : Spool → Name → Spool
  unlink s n = record s { files = remove n s.files }

  unfoldable pub unlink_all : Spool → List Name → Spool
  unfolding unlink
  unlink_all s [] = s
  unlink_all s (n ∷ ns) = unlink_all (unlink s n) ns

  unfoldable pub enforce_cap : Spool → Spool
  unfolding unlink_all
  enforce_cap s = let files = files_of s in unlink_all s (take (length files - s.max_files) files)

  -- `_quarantine`: `os.replace` into the other directory
  unfoldable pub move : Spool → Name → Spool
  move s n = elim (get n s.files) [
    | none ↦ s
    | some content ↦ record s { files = remove n s.files; quarantine = put n content s.quarantine }
  ]

  module _ (dumps : Fields → host.Bytes) where
    unfoldable pub store : Spool → host.Bytes → ℕ → String → Headers → Spool
    unfolding enforce_cap
    store s body now batch_id h =
        let fields : Fields = record {
          format = 1;
          batch_id = batch_id;
          created_at = now;
          body_b64 = host.b64encode body;
          x_signature = h.x_signature;
          x_public_key = h.x_public_key;
        } in
        enforce_cap (record s { files = put (file_name now batch_id) (dumps fields) s.files })

    unfoldable pub put_checked :
        Spool → host.Bytes → ℕ → Result String → Result Headers → Result Name × Spool
    unfolding store
    put_checked s body now (ok batch_id) (ok h) =
        (ok (file_name now batch_id), store s body now batch_id h)
    put_checked s body now other_error _ = (other_error, s)
    put_checked s body now (ok _) other_error = (other_error, s)
    put_checked s body now _ _ = (value_error, s)

    unfoldable pub put_batch : Spool → host.Bytes → Dict String String → ℕ → Result Name × Spool
    unfolding put_checked
    put_batch s body headers now =
        put_checked s body now (validate_body host body) (check_headers host.lower headers)

  pub record Entry : Type 0 where
    pub path : Name
    pub batch_id : String
    pub created_at : ℕ
    pub body : host.Bytes
    pub headers : Headers

  -- The last checks of `_load`.
  unfoldable pub matched :
      Name → Object host → host.Bytes → ℕ → Headers → Result String → Result Entry
  matched path o body created h (ok id) =
      if text_at host "batch_id" o == id
      then ok
          (record { path = path; batch_id = id; created_at = created; body = body; headers = h })
      else value_error
  matched path o body created h value_error = value_error
  matched path o body created h other_error = other_error

  unfoldable pub load_signed :
      Name → Object host → Option host.Bytes → Result ℕ → Result Headers → Result Entry
  unfolding matched
  load_signed path o none created h = value_error
  load_signed path o (some body) value_error h = value_error
  load_signed path o (some body) other_error h = other_error
  load_signed path o (some body) (ok created) (ok h) =
      matched path o body created h (validate_body host body)
  load_signed path o (some body) (ok created) _ = value_error

  -- `float(record["created_at"])`
  abbrev pub created_in : Option host.Value → Result ℕ
  created_in none = value_error
  created_in (some v) = host.as_time v

  unfoldable pub load_object : Name → Object host → Result Entry
  unfolding load_signed
  load_object path o =
      if or_default false (bind (get "format" o) (λ v. some (host.is_one v)))
      then load_signed path o (bind (get "body_b64" o) host.b64decode)
          (created_in (get "created_at" o))
          (sized (text_at host "x-signature" o) (text_at host "x-public-key" o))
      else value_error

  -- `_load`: a file whose JSON is no object has no `get`
  unfoldable pub load : Name → host.Bytes → Result Entry
  unfolding load_object
  load path content = elim (bind (host.loads content) (λ v. some (host.as_object v))) [
    | none ↦ value_error
    | some none ↦ other_error
    | some (some o) ↦ load_object path o
  ]
