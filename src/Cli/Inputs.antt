-- ===== src/Cli/Inputs.antt =====
-- crates/tandem-cli/src/main.rs: the check of the locked protocol inputs. Files, JSON and paths are
-- parameters.
use tandem_verifier_rs.Prelude.{
  ℕ, ◌≡◌, ◌≢◌, sym, ap, subst, ◌∙◌, List, [], ◌∷◌, Bool, true, false, not, ◌&&◌, Option, some,
  length, ◌==◌, nat_eq, bytes_eq, bytes_ord, same_iff, All, Outcome, ok, ok_or, ok_or-ok, bind-ok,
  ◌>>=◌, ◌>>◌, arith,
}
use tandem_verifier_rs.Prelude.Text.{Text, text}
use tandem_verifier_rs.Map
use tandem_verifier_rs.Map.{TreeMap}
use tandem_verifier_rs.Types.Hash.{Hash32, hash_eq, hash_ord}
use tandem_verifier_rs.Types.Crypto.{Crypto, sha256}
use tandem_verifier_rs.Cli.Errors.{
  CliError, cannot_read, invalid_json, wrong_schema, empty_lock, unsafe_path, input_mismatch,
  ensure, ensure-ok,
}

pub record InputLock : Type 0 where
  pub schema : Text
  pub inputs : TreeMap Text Hash32

pub record InputReport : Type 0 where
  pub schema : Text
  pub files_verified : ℕ
  pub hashes : TreeMap Text Hash32

abbrev pub lock_schema : Text
lock_schema = text "urn:tandem:rust-protocol-input-lock"

abbrev pub report_schema : Text
report_schema = text "urn:tandem:rust-input-verification-report"

-- The file system: `fs::read`, the JSON of a lock, and what the tool asks of a path.
pub record Files : Type 0 where
  pub read : Text → Option (List ℕ)
  pub parse_lock : List ℕ → Option InputLock
  pub is_absolute : Text → Bool
  -- whether every component of a path is `Component::Normal`
  pub is_normal : Text → Bool
  pub join : Text → Text → Text

some-injective : {A : Type 0} {a b : A} → ◌≡◌ {A = Option A} (some a) (some b) → a ≡ b
some-injective e = ground arith

not_empty : {A : Type 0} (xs : List A) → not (length xs == 0) ≡ true → xs ≢ []
not_empty [] h = λ e. ground arith
not_empty (x ∷ xs) h = λ e. ground arith

module _ ⦃c : Crypto⦄ (f : Files) where
  -- the loop over the inputs, which fills `hashes`
  unfoldable pub check_inputs :
      Text → List (Text × Hash32) → TreeMap Text Hash32 → Outcome CliError (TreeMap Text Hash32)
  unfolding sha256
  check_inputs root [] hashes = ok hashes
  check_inputs root ((relative, expected) ∷ rest) hashes = do
    ensure (not (f.is_absolute relative) && f.is_normal relative) unsafe_path
    content ← ok_or (f.read (f.join root relative)) cannot_read
    ensure (sha256 content == expected) input_mismatch
    check_inputs root rest (Map.insert relative (sha256 content) hashes)

  -- `verify_inputs`
  unfoldable pub verify_inputs : Text → Text → Outcome CliError InputReport
  unfolding check_inputs
  verify_inputs lock_path root = do
    bytes ← ok_or (f.read lock_path) cannot_read
    lock ← ok_or (f.parse_lock bytes) invalid_json
    ensure (lock.schema == lock_schema) wrong_schema
    ensure (not (length lock.inputs.entries == 0)) empty_lock
    hashes ← check_inputs root lock.inputs.entries Map.empty
    ok (record { schema = report_schema; files_verified = Map.size hashes; hashes = hashes })

  -- The file of an entry is below the root and has the hash of the entry.
  pub record IsLocked (root : Text) (entry : Text × Hash32) : Type 0 where
    pub relative : f.is_absolute entry.0 ≡ false
    pub normal : f.is_normal entry.0 ≡ true
    pub content : List ℕ
    pub found : f.read (f.join root entry.0) ≡ some content
    pub hashed : sha256 content ≡ entry.1

  check_inputs-IsLocked :
      (root : Text) (entries : List (Text × Hash32)) (hashes result : TreeMap Text Hash32)
      → check_inputs root entries hashes ≡ ok result
      → All (IsLocked root) entries
  unfolding check_inputs
  check_inputs-IsLocked root [] hashes result e = tt
  check_inputs-IsLocked root ((path, expected) ∷ rest) hashes result e =
      let (u, (q0, e0)) =
        bind-ok (ensure (not (f.is_absolute path) && f.is_normal path) unsafe_path) e in
      let (content, (q1, e1)) = bind-ok (ok_or (f.read (f.join root path)) cannot_read) e0 in
      let (v, (q2, e2)) = bind-ok (ensure (sha256 content == expected) input_mismatch) e1 in
      let safe = ensure-ok (not (f.is_absolute path) && f.is_normal path) unsafe_path q0 in
      (
        record {
          relative = ground arith;
          normal = ground arith;
          content = content;
          found = ok_or-ok _ cannot_read q1;
          hashed = (same_iff (sha256 content) expected).0 (ensure-ok _ input_mismatch q2);
        },
        check_inputs-IsLocked root rest _ result e2,
      )

  -- Where the tool accepts a lock, the lock has entries, and each names a relative path, without
  -- special components, of a file below the root whose SHA-256 hash is that of the entry.
  pub verify_inputs-IsLocked :
      (lock_path root : Text) (bytes : List ℕ) (lock : InputLock) (report : InputReport)
      → f.read lock_path ≡ some bytes
      → f.parse_lock bytes ≡ some lock
      → verify_inputs lock_path root ≡ ok report
      → (lock.schema ≡ lock_schema)
        × (lock.inputs.entries ≢ [])
        × All (IsLocked root) lock.inputs.entries
  unfolding verify_inputs
  verify_inputs-IsLocked lock_path root bytes lock report r p e =
      let (bytes', (q0, e0)) = bind-ok (ok_or (f.read lock_path) cannot_read) e in
      let (lock', (q1, e1)) = bind-ok (ok_or (f.parse_lock bytes') invalid_json) e0 in
      let (u, (q2, e2)) = bind-ok (ensure (lock'.schema == lock_schema) wrong_schema) e1 in
      let (v, (q3, e3)) = bind-ok (ensure (not (length lock'.inputs.entries == 0)) empty_lock) e2 in
      let (hashes, (q4, e4)) = bind-ok (check_inputs root lock'.inputs.entries Map.empty) e3 in
      let found = ok_or-ok _ cannot_read q0 in
      let parsed = ok_or-ok _ invalid_json q1 in
      let same_bytes : bytes' ≡ bytes = ground arith in
      let same : lock' ≡ lock = some-injective (sym parsed ∙ (ap f.parse_lock same_bytes ∙ p)) in
      subst
        (λ (l : InputLock).
          (l.schema ≡ lock_schema) × (l.inputs.entries ≢ []) × All (IsLocked root) l.inputs.entries)
        same
        (
          (same_iff lock'.schema lock_schema).0 (ensure-ok _ wrong_schema q2),
          not_empty lock'.inputs.entries (ensure-ok _ empty_lock q3),
          check_inputs-IsLocked root _ _ hashes q4,
        )
