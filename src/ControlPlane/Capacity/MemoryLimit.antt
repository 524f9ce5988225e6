-- ===== src/ControlPlane/Capacity/MemoryLimit.antt =====
-- `parse_memory_limit_to_mb` of control_plane/controller_helpers.py, beside the lab host's reading of
-- the same texts.
use docker_interface.Prelude.{
  ℕ, zero, suc, ◌≡◌, refl, ap, ◌∙◌, ◌*◌, ◌/◌, ◌≤◌, ◌<◌, ◌+◌, [], ◌∷◌, Option, none, some, arith,
  ◌==◌,
}
use docker_interface.Prelude.Int.{ℤ, pos, negsuc}
use docker_interface.Py.Chars.{Chars, to_text}
use docker_interface.Py.Float.{Float}
use docker_interface.Py.Memory.{match_memory, multiplier}
use docker_interface.Py.Result.{ok, err, ◌>>=◌, ◌>>◌, raise_if, format, bind-eq-ok, guard-eq-ok}
use docker_interface.LabHost.Errors.{Error, value_error, Try}
use docker_interface.LabHost.Limits.{
  int_or_raise, bytes_with, matched_bytes, positive, parse_memory_limit_to_bytes,
}

abbrev mebibyte : ℕ
mebibyte = 1048576

-- `//`, and at least one.
unfoldable pub whole_mb : ℤ → Try ℕ
whole_mb (negsuc n) = err (value_error "memory_limit must be at least 1 MiB")
whole_mb (pos n) = do
  raise_if (n / mebibyte == 0) (value_error "memory_limit must be at least 1 MiB")
  ok (n / mebibyte)

abbrev unsupported : Chars → Error
unsupported unit = value_error (
    format (
      "Unsupported memory unit '"
      ∷ to_text unit
      ∷ "'. Use b/k/m/g/t or ki/mi/gi/ti variants."
      ∷ []))

abbrev multiplier_or_raise : Chars → Option ℕ → Try ℕ
multiplier_or_raise unit none = err (unsupported unit)
multiplier_or_raise unit (some m) = ok m

-- What a whole number of mebibytes says of the number of bytes.
abbrev pub Rounded : ℕ → ℕ → Type 0
Rounded mb k = (0 < mb) × (mb * mebibyte ≤ k) × (k < (mb + 1) * mebibyte)

module _ (fl : Float) where
  unfoldable pub megabytes : Chars → Chars → Try ℕ
  megabytes number unit = do
    raise_if (fl.le (fl.of_text number) (fl.of_int (pos 0)))
        (value_error "memory_limit must be greater than 0")
    m ← multiplier_or_raise unit (multiplier unit)
    n ← int_or_raise (fl.trunc (fl.times (fl.of_text number) m))
    whole_mb n

  unfoldable pub matched_megabytes : Option (Chars × Chars) → Try (Option ℕ)
  matched_megabytes none =
      err (value_error "Invalid memory_limit format. Use values like '512m', '1g', or '1024mb'.")
  matched_megabytes (some (number, unit)) = do mb ← megabytes number unit; ok (some mb)

  unfoldable pub parse_memory_limit_to_mb : Option Chars → Try (Option ℕ)
  parse_memory_limit_to_mb none = ok none
  parse_memory_limit_to_mb (some memory_limit) = matched_megabytes (match_memory memory_limit)

  whole_mb-inverts :
      (n : ℤ) {mb : ℕ} → whole_mb n ≡ ok mb → (k : ℕ) × (n ≡ pos k) × (0 < mb) × (mb ≡ k / mebibyte)
  unfolding whole_mb
  whole_mb-inverts (negsuc n) h = cc
  whole_mb-inverts (pos n) {mb} h =
      let (a, b) = guard-eq-ok (n / mebibyte == 0) _ _ h in (n, refl, ground arith, ground arith)

  positive_of : (k : ℕ) → 0 < k → positive (pos k) ≡ ok k
  positive_of zero h = absurd (omega arith)
  positive_of (suc k) h = refl

  int_or_raise-inverts : (o : Option ℤ) {n : ℤ} → int_or_raise o ≡ ok n → o ≡ some n
  int_or_raise-inverts none h = cc
  int_or_raise-inverts (some n) h = ground arith

  multiplier-inverts :
      (unit : Chars) (o : Option ℕ) {m : ℕ} → multiplier_or_raise unit o ≡ ok m → o ≡ some m
  multiplier-inverts unit none h = cc
  multiplier-inverts unit (some m) h = ground arith

  bytes_of :
      (number unit : Chars) (m k : ℕ)
      → multiplier unit ≡ some m
      → fl.trunc (fl.times (fl.of_text number) m) ≡ some (pos k)
      → 0 < k
      → bytes_with fl number unit (multiplier unit) ≡ ok k
  unfolding bytes_with
  bytes_of number unit m k em et h = rw (em, et) (positive_of k h)

  rounded : (k x mb : ℕ) → 0 < x → x ≡ k / mebibyte → x ≡ mb → Rounded mb k
  rounded k x mb h e same = (ground arith, ground arith, ground arith)

  matched_lem :
      (match : Option (Chars × Chars)) {mb : ℕ}
      → matched_megabytes match ≡ ok (some mb)
      → (k : ℕ) × (matched_bytes fl match ≡ ok k) × Rounded mb k
  unfolding matched_megabytes megabytes matched_bytes
  matched_lem none h = cc
  matched_lem (some (number, unit)) {mb} h =
      let (x, e0, h0) = bind-eq-ok (megabytes number unit) (λ y. ok (some y)) h in
      let same : x ≡ mb = ground arith in
      let (above_zero, h1) =
        guard-eq-ok (fl.le (fl.of_text number) (fl.of_int (pos 0)))
          (value_error "memory_limit must be greater than 0") _ e0 in
      let (m, em, h2) =
        bind-eq-ok (multiplier_or_raise unit (multiplier unit))
          (λ m. int_or_raise (fl.trunc (fl.times (fl.of_text number) m)) >>= whole_mb) h1 in
      let (n, en, h3) =
        bind-eq-ok (int_or_raise (fl.trunc (fl.times (fl.of_text number) m))) whole_mb h2 in
      let (k, ek, positive_mb, em') = whole_mb-inverts n h3 in
      let bytes =
        bytes_of number unit m k (multiplier-inverts unit _ em)
          (int_or_raise-inverts _ en ∙ ap some ek) (ground arith) in
      (k, bytes, rounded k x mb positive_mb em' same)

  -- A limit that the control plane reads as a number of mebibytes is one that the lab host accepts, and the
  -- lab host's number of bytes is that number of mebibytes, rounded down.
  pub parse_memory_limit_to_mb-Rounded :
      (memory_limit : Chars) {mb : ℕ}
      → parse_memory_limit_to_mb (some memory_limit) ≡ ok (some mb)
      → (k : ℕ) × (parse_memory_limit_to_bytes fl memory_limit ≡ ok k) × Rounded mb k
  unfolding parse_memory_limit_to_mb parse_memory_limit_to_bytes
  parse_memory_limit_to_mb-Rounded memory_limit h = matched_lem (match_memory memory_limit) h
