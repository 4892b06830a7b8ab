-- ===== src/Http/Filenames/Safety.antt =====
-- What sanitizeFilename lets through.
use u_paste.Prelude.{
  ℕ, ◌≡◌, ◌≢◌, ◌≤◌, refl, true, false, some, [], ◌∷◌, arith, Bytes, bytes_eq_iff, length,
}
use u_paste.Http.Texts.{contains_byte, replace_byte}
use u_paste.Http.Filenames.{
  strip_slashes, last_element, base, has_control, is_filename, sanitize_filename,
}

-- Without backslashes nothing is replaced, without slashes the last element is the whole.
replace_byte_absent :
    (value : Bytes) (old new : ℕ)
    → contains_byte value old ≡ false
    → replace_byte value old new ≡ value
unfolding contains_byte replace_byte
replace_byte_absent [] old new h = refl
replace_byte_absent (c ∷ cs) old new h = ground (arith, h, replace_byte_absent cs old new)

strip_slashes_absent :
    (value : Bytes) → contains_byte value b'/' ≡ false → strip_slashes value ≡ value
unfolding contains_byte strip_slashes
strip_slashes_absent [] h = refl
strip_slashes_absent (c ∷ []) h = ground (arith, h)
strip_slashes_absent (c ∷ d ∷ ds) h = ground (arith, h, strip_slashes_absent (d ∷ ds))

last_element_absent :
    (value : Bytes) → contains_byte value b'/' ≡ false → last_element value ≡ value
unfolding contains_byte last_element
last_element_absent [] h = refl
last_element_absent (c ∷ cs) h = ground (arith, h)

base_absent : (c : ℕ) (cs : Bytes) → contains_byte (c ∷ cs) b'/' ≡ false → base (c ∷ cs) ≡ c ∷ cs
unfolding base
base_absent c cs h = rw (strip_slashes_absent (c ∷ cs) h, last_element_absent (c ∷ cs) h, base) refl

sanitize_filename-ok :
    (value name : Bytes) → sanitize_filename value ≡ some name → is_filename name ≡ true
unfolding sanitize_filename
sanitize_filename-ok value name h = ground (arith, h)

record Clean (name : Bytes) : Type 0 where
  nonempty : name ≢ []
  no_dot : name ≢ b'.' ∷ []
  no_dots : name ≢ b'.' ∷ b'.' ∷ []
  slashes : contains_byte name b'/' ≡ false
  backslashes : contains_byte name b'\\' ≡ false
  controls : has_control name ≡ false
  short : length name ≤ 255

is_filename-Clean : (name : Bytes) → is_filename name ≡ true → Clean name
unfolding is_filename
is_filename-Clean name h = record {
  nonempty = λ e. absurd (ground (arith, h, bytes_eq_iff name [], e));
  no_dot = λ e. absurd (ground (arith, h, bytes_eq_iff name (b'.' ∷ []), e));
  no_dots = λ e. absurd (ground (arith, h, bytes_eq_iff name (b'.' ∷ b'.' ∷ []), e));
  slashes = ground (arith, h);
  backslashes = ground (arith, h);
  controls = ground (arith, h);
  short = ground (arith, h);
}

base_same : (name : Bytes) → Clean name → base (replace_byte name b'\\' b'/') ≡ name
base_same [] c = absurd (c.nonempty refl)
base_same (b ∷ bs) c =
    rw (replace_byte_absent (b ∷ bs) b'\\' b'/' c.backslashes) (base_absent b bs c.slashes)

sanitize_filename_same :
    (name : Bytes) → is_filename name ≡ true → sanitize_filename name ≡ some name
unfolding sanitize_filename
sanitize_filename_same name h =
    rw (base_same name (is_filename-Clean name h), h, sanitize_filename) refl

-- A name that sanitizeFilename answers is not empty nor a dot or two, holds no slash, backslash or
-- control character, has at most 255 bytes, and is left as it is when it is sanitised again.
pub sanitize_filename_idempotent :
    (value name : Bytes)
    → sanitize_filename value ≡ some name
    → (name ≢ [])
      × (name ≢ b'.' ∷ [])
      × (name ≢ b'.' ∷ b'.' ∷ [])
      × (contains_byte name b'/' ≡ false)
      × (contains_byte name b'\\' ≡ false)
      × (has_control name ≡ false)
      × (length name ≤ 255)
      × (sanitize_filename name ≡ some name)
sanitize_filename_idempotent value name h =
    let checked = sanitize_filename-ok value name h in
    let c = is_filename-Clean name checked in
    (
      c.nonempty,
      c.no_dot,
      c.no_dots,
      c.slashes,
      c.backslashes,
      c.controls,
      c.short,
      sanitize_filename_same name checked,
    )
