-- ===== src/Cli/Json.antt =====
-- crates/tandem-cli/src/main.rs: what the tools read of a JSON value, and the hashes in it.
use tandem_verifier_rs.Prelude.{
  ℕ, List, [], ◌∷◌, Bool, Option, some, Outcome, ok, ok_or, ◌>>=◌, ◌==◌, option_eq, bytes_eq,
}
use tandem_verifier_rs.Prelude.Text.{Text}
use tandem_verifier_rs.Types.Hash.{Hash32}
use tandem_verifier_rs.Types.Hex.{HexCodec, hash_from_hex}
use tandem_verifier_rs.Cli.Errors.{CliError, missing, invalid}

-- `serde_json::Value`: its members and elements (`null` where there is none), and what it is read as.
pub record Json (V : Type 0) : Type 0 where
  pub member : V → Text → V
  pub element : V → ℕ → V
  pub as_str : V → Option Text
  pub as_array : V → Option (List V)
  pub as_u64 : V → Option ℕ

module _ ⦃x : HexCodec⦄ {V : Type 0} (j : Json V) where
  -- `value == "literal"`
  abbrev pub is_text : V → Text → Bool
  is_text value literal = j.as_str value == some literal

  -- `value[..].as_str().context(..)?`
  abbrev pub text_of : V → Outcome CliError Text
  text_of value = ok_or (j.as_str value) missing

  -- `hex::decode(value[..].as_str().context(..)?)?`
  abbrev pub bytes_of : V → Outcome CliError (List ℕ)
  bytes_of value = do cs ← text_of value; ok_or (x.decode cs) invalid

  -- `parse_json_hash`
  unfoldable pub parse_json_hash : V → Outcome CliError Hash32
  parse_json_hash value = do cs ← text_of value; ok_or (hash_from_hex cs) invalid

  -- `.iter().map(parse_json_hash).collect()`
  unfoldable pub parse_hashes : List V → Outcome CliError (List Hash32)
  unfolding parse_json_hash
  parse_hashes [] = ok []
  parse_hashes (value ∷ rest) = do
    hash ← parse_json_hash value
    hashes ← parse_hashes rest
    ok (hash ∷ hashes)

  -- `parse_hash_array`
  unfoldable pub parse_hash_array : V → Outcome CliError (List Hash32)
  unfolding parse_hashes
  parse_hash_array value = do items ← ok_or (j.as_array value) missing; parse_hashes items
