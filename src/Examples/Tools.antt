-- ===== src/Examples/Tools.antt =====
-- The tools on a replay of one block, on a lock of one file, and on the levels of two leaves.
use tandem_verifier_rs.Prelude.{
  ℕ, ◌≡◌, ◌≢◌, ◌↔◌, refl, List, [], ◌∷◌, true, false, Option, none, some, ok, All, bytes_eq, same,
  bytes_ord, cmp_bytes,
}
use tandem_verifier_rs.Prelude.Bytes.{le_bytes}
use tandem_verifier_rs.Prelude.Text.{Text, text}
use tandem_verifier_rs.Types.Hash.{Hash32, hash_ord}
use tandem_verifier_rs.Types.Crypto.{sha256}
use tandem_verifier_rs.Types.Hex.{hash_from_hex, to_hex, protocol_id}
use tandem_verifier_rs.Roots.{merkle, node, pad, last_or}
use tandem_verifier_rs.Examples.Fixtures.{binding, hash_of, toy_crypto, digest}
use tandem_verifier_rs.Examples.Service.{toy_codec}
use tandem_verifier_rs.Examples.Storing.{init_block, delta, post}
use tandem_verifier_rs.Map
use tandem_verifier_rs.Cli.Replay.{ReplayInput, ReplayReport, replay_schema, replay_input}
use tandem_verifier_rs.Cli.Replayed.{IsReplay, replay_input_iff}
use tandem_verifier_rs.Cli.Inputs.{
  Files, InputLock, InputReport, IsLocked, lock_schema, report_schema, check_inputs, verify_inputs,
  verify_inputs-IsLocked,
}
use tandem_verifier_rs.Cli.Json.{Json, parse_json_hash, parse_hashes, parse_hash_array}
use tandem_verifier_rs.Cli.Levels.{
  last_level, check_pairs, check_level, check_windows, verify_merkle_levels,
}
use tandem_verifier_rs.Cli.Rooted.{top, below, end, level, verify_merkle_levels-merkle}

abbrev one_block : ReplayInput
one_block = record {
  binding = binding;
  blocks = init_block ∷ [];
  expected_roots = delta.roots ∷ [];
}

abbrev report : ReplayReport
report = record {
  schema = replay_schema;
  protocol_id = protocol_id post.binding;
  heights = delta.roots ∷ [];
  event_counts = 1 ∷ [];
  final_state = post;
}

replay_input_iff_example : (replay_input one_block ≡ ok report) ↔ IsReplay one_block report
replay_input_iff_example = replay_input_iff one_block report

abbrev spec : List ℕ
spec = 1 ∷ 2 ∷ 3 ∷ []

abbrev lock : InputLock
lock = record {
  schema = lock_schema;
  inputs = record { entries = (text "tandem.md", sha256 spec) ∷ [] };
}

abbrev files : Files
files = record {
  read = λ path. some spec;
  parse_lock = λ bytes. some lock;
  is_absolute = λ path. false;
  is_normal = λ path. true;
  join = λ root path. path;
}

abbrev locked : InputReport
locked = record {
  schema = report_schema;
  files_verified = 1;
  hashes = record { entries = (text "tandem.md", sha256 spec) ∷ [] };
}

accepted : verify_inputs files (text "lock") (text "root") ≡ ok locked
unfolding verify_inputs check_inputs sha256 Map.insert same bytes_ord cmp_bytes hash_ord digest
accepted = refl

verify_inputs-IsLocked_example :
    (lock_schema ≡ lock_schema)
    × (lock.inputs.entries ≢ [])
    × All (IsLocked files (text "root")) lock.inputs.entries
verify_inputs-IsLocked_example =
    verify_inputs-IsLocked files (text "lock") (text "root") spec lock locked refl refl accepted

-- JSON with texts and arrays only
data Value : Type 0 where
  str : Text → Value
  array : Value → Value → Value
  nil : Value

abbrev elements : Value → Option (List Value)
elements (str cs) = none
elements nil = some []
elements (array value rest) = elim (elements rest) [
  | none ↦ none
  | some values ↦ some (value ∷ values)
]

abbrev toy_json : Json Value
toy_json = record {
  member = λ value key. value;
  element = λ value index. value;
  as_str = λ value. elim value [ str cs ↦ some cs | _ ↦ none ];
  as_array = elements;
  as_u64 = λ value. none;
}

abbrev left : Hash32
left = hash_of 3

abbrev right : Hash32
right = hash_of 4

abbrev root : Hash32
root = node [] left right

abbrev hash_value : Hash32 → Value
hash_value h = str (to_hex h)

abbrev leaves_value : Value
leaves_value = array (hash_value left) (array (hash_value right) nil)

abbrev root_value : Value
root_value = array (hash_value root) nil

abbrev tree_value : Value
tree_value = array leaves_value (array root_value nil)

record TreeRuns : Type 0 where
  leaves_read : parse_hash_array toy_json leaves_value ≡ ok (left ∷ right ∷ [])
  root_read : parse_hash_array toy_json root_value ≡ ok (root ∷ [])
  checked_tree : verify_merkle_levels toy_json tree_value [] root ≡ ok root
  -- a single level of two hashes
  wide_top : verify_merkle_levels toy_json (array leaves_value nil) [] left ≡ ok left

tree_runs : TreeRuns
unfolding parse_hash_array parse_hashes parse_json_hash hash_from_hex to_hex verify_merkle_levels
    check_windows check_level check_pairs last_level pad last_or node sha256 digest same bytes_ord
    cmp_bytes hash_ord le_bytes
tree_runs = record { leaves_read = refl; root_read = refl; checked_tree = refl; wide_top = refl }

verify_merkle_levels-merkle_example : (root ≡ root) × (merkle (left ∷ right ∷ []) [] ≡ some root)
verify_merkle_levels-merkle_example =
    verify_merkle_levels-merkle toy_json tree_value [] root root root
      (leaves_value ∷ root_value ∷ []) (left ∷ right ∷ []) ((root ∷ []) ∷ []) refl
      (level leaves_value (left ∷ right ∷ []) tree_runs.leaves_read
        (level root_value (root ∷ []) tree_runs.root_read end))
      (below left right [] (top root)) tree_runs.checked_tree
