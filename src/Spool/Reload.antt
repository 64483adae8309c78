-- ===== src/Spool/Reload.antt =====
-- What probe/spool.py `put` stores, `_load` reads back byte for byte.
use mathlib.Core.Path.{subst}
use seismograph.Prelude.{
  ℕ, suc, ◌-◌, ◌≤◌, ◌<◌, ◌≡◌, refl, ◌∙◌, ap, String, true, false, some, [], ◌∷◌, length, arith,
  string_eq, both, Bool-cases, inl, inr, beq_refl, length-map,
}
use seismograph.Dict.{or_default, Dict, get, put, get-put}
use seismograph.Dict.Keys.{keys}
use seismograph.Spool.{Host, ok}
use seismograph.Spool.Body.{
  lowered, Headers, Object, hex_of, sized, validate_body, check_headers, text_at,
}
use seismograph.Spool.Store.{
  created_in, Name, name_eq, Fields, Spool, Entry, files_of, file_name, unlink_all, enforce_cap,
  store, put_checked, put_batch, load, load_object, load_signed, matched, bind,
}
use seismograph.Spool.Files.{length-sort}

-- What the spool relies on: the JSON object that it writes is read back with the same texts and
-- numbers under its keys.
pub record ReadsBack (host : Host) (dumps : Fields → host.Bytes) : Type 0 where
  pub text : String → host.Value
  pub number : ℕ → host.Value
  pub stored : Fields → host.Value
  pub as_text-text : (s : String) → host.as_text (text s) ≡ some s
  pub is_one-number : host.is_one (number 1) ≡ true
  pub as_time-number : (n : ℕ) → host.as_time (number n) ≡ ok n
  pub loads-dumps : (f : Fields) → host.loads (dumps f) ≡ some (stored f)
  pub as_object-stored :
      (f : Fields)
      → host.as_object (stored f)
        ≡ some (
            ("batch_id", text f.batch_id)
            ∷ ("body_b64", text f.body_b64)
            ∷ ("created_at", number f.created_at)
            ∷ ("format", number f.format)
            ∷ ("x-public-key", text f.x_public_key)
            ∷ ("x-signature", text f.x_signature)
            ∷ [])

length-put-le :
    {V : Type 0} (n : Name) (v : V) (d : Dict Name V) → length (put n v d) ≤ suc (length d)
length-put-le n v [] = omega arith
length-put-le n v ((m, w) ∷ d) = ground (arith, length-put-le n v d)

-- Headers that passed the check once pass it again.
sized_again :
    (sig pub_key : String) (h : Headers)
    → sized sig pub_key ≡ ok h
    → sized h.x_signature h.x_public_key ≡ ok h
unfolding sized
sized_again sig pub_key h = elim (Bool-cases (both (hex_of 128 sig) (hex_of 64 pub_key))) [
  | inl fits ↦
      let read : Headers = record { x_signature = sig; x_public_key = pub_key } in
      let kept : sized sig pub_key ≡ ok read = rw (fits, sized) refl in
      λ e.
        let same : read ≡ h = cc (kept, e) in
        subst (λ x. sized x.x_signature x.x_public_key ≡ ok x) same kept
  | inr wrong ↦ rw (wrong, sized) (λ e. absurd cc)
]

module _ (host : Host) (dumps : Fields → host.Bytes) (laws : ReadsBack host dumps) where
  enforce_cap_idle : (s : Spool host) → length s.files ≤ s.max_files → enforce_cap host s ≡ s
  unfolding enforce_cap unlink_all
  enforce_cap_idle s room =
      let none_over : length (files_of host s) - s.max_files ≡ 0 =
        omega (arith, length-sort (keys s.files), length-map s.files (λ x. x.0)) in
      rw none_over refl

  checked_again :
      (headers : Dict String String) (h : Headers)
      → check_headers host.lower headers ≡ ok h
      → sized h.x_signature h.x_public_key ≡ ok h
  unfolding check_headers
  checked_again headers h checked =
      sized_again (or_default "" (get "x-signature" (lowered host.lower [] headers)))
        (or_default "" (get "x-public-key" (lowered host.lower [] headers))) h checked

  abbrev pub entry_of : host.Bytes → ℕ → String → Headers → Entry host
  entry_of body now id h = record {
    path = file_name now id;
    batch_id = id;
    created_at = now;
    body = body;
    headers = h;
  }

  abbrev pub fields_of : host.Bytes → ℕ → String → Headers → Fields
  fields_of body now id h = record {
    format = 1;
    batch_id = id;
    created_at = now;
    body_b64 = host.b64encode body;
    x_signature = h.x_signature;
    x_public_key = h.x_public_key;
  }

  load-object :
      (n : Name) (content : host.Bytes) (v : host.Value) (o : Object host)
      → host.loads content ≡ some v
      → host.as_object v ≡ some o
      → load host n content ≡ load_object host n o
  unfolding load
  load-object n content v o read object = rw (read, object, load) refl

  load_signed-fields :
      (body : host.Bytes) (now : ℕ) (id : String) (h : Headers) (o : Object host)
      → text_at host "batch_id" o ≡ id
      → validate_body host body ≡ ok id
      → load_signed host (file_name now id) o (some body) (ok now) (ok h)
        ≡ ok (entry_of body now id h)
  unfolding load_signed matched
  load_signed-fields body now id h o named valid =
      rw (valid, load_signed) (rw (named, beq_refl id, matched) refl)

  load_object-fields :
      (n : Name) (o : Object host) (body : host.Bytes) (now : ℕ) (h : Headers)
      → or_default false (bind (get "format" o) (λ v. some (host.is_one v))) ≡ true
      → bind (get "body_b64" o) host.b64decode ≡ some body
      → created_in host (get "created_at" o) ≡ ok now
      → sized (text_at host "x-signature" o) (text_at host "x-public-key" o) ≡ ok h
      → load_object host n o ≡ load_signed host n o (some body) (ok now) (ok h)
  unfolding load_object
  load_object-fields n o body now h known decoded timed fits =
      rw (known, decoded, timed, fits, load_object) refl

  load-dumps :
      (body : host.Bytes) (now : ℕ) (id : String) (h : Headers)
      → host.b64decode (laws.text (host.b64encode body)) ≡ some body
      → validate_body host body ≡ ok id
      → sized h.x_signature h.x_public_key ≡ ok h
      → load host (file_name now id) (dumps (fields_of body now id h)) ≡ ok (entry_of body now id h)
  unfolding load load_object load_signed matched
  load-dumps body now id h decoded valid fits =
      let f = fields_of body now id h in
      let o : Object host =
        (("batch_id", laws.text f.batch_id)
          ∷ ("body_b64", laws.text f.body_b64)
          ∷ ("created_at", laws.number f.created_at)
          ∷ ("format", laws.number f.format)
          ∷ ("x-public-key", laws.text f.x_public_key)
          ∷ ("x-signature", laws.text f.x_signature)
          ∷ []) in
      let named : text_at host "batch_id" o ≡ id = ap (or_default "") (laws.as_text-text id) in
      let signed : sized (text_at host "x-signature" o) (text_at host "x-public-key" o) ≡ ok h =
        rw (laws.as_text-text h.x_signature, laws.as_text-text h.x_public_key) fits in
      load-object (file_name now id) (dumps (fields_of body now id h)) _ _
        (laws.loads-dumps (fields_of body now id h)) (laws.as_object-stored f)
      ∙ load_object-fields (file_name now id) o body now h laws.is_one-number decoded
          (laws.as_time-number now) signed
      ∙ load_signed-fields body now id h o named valid

  -- If the directory has room and base64 decodes what it encodes of the body, a batch that `put` accepts is in the file that it names, and `_load`
  -- reads from that file the same bytes and the headers that were checked.
  pub put-load :
      (s : Spool host) (body : host.Bytes) (now : ℕ) (headers : Dict String String) (id : String)
      (h : Headers)
      → length s.files < s.max_files
      → host.b64decode (laws.text (host.b64encode body)) ≡ some body
      → validate_body host body ≡ ok id
      → check_headers host.lower headers ≡ ok h
      → (content : host.Bytes) × ((get
              (file_name now id)
              (put_batch host dumps s body headers now).1.files
            ≡ some content)
          × (load host (file_name now id) content ≡ ok (entry_of body now id h)))
  unfolding put_batch put_checked store
  put-load s body now headers id h room decoded valid checked =
      let full : Spool host = record s {
        files = put (file_name now id) (dumps (fields_of body now id h)) s.files;
      } in
      let idle = enforce_cap_idle full (
        omega (
          arith,
          room,
          length-put-le (file_name now id) (dumps (fields_of body now id h)) s.files,
        )) in
      (
        dumps (fields_of body now id h),
        (
          rw (valid, checked, put_batch, put_checked, store, idle)
              (rw
                (
                  get-put (file_name now id) (file_name now id) (dumps (fields_of body now id h))
                      s.files,
                  beq_refl (file_name now id),
                )
                refl),
          load-dumps body now id h decoded valid (checked_again headers h checked),
        ),
      )
