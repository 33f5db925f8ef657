-- ===== src/Examples/Encodings.antt =====
-- The theorems on markers, roots and codes on the fixtures.
use tandem_verifier_rs.Prelude.{
  ◌≡◌, ◌≢◌, refl, ◌∷◌, true, List, ℕ, none, some, ok, panic, replicate, bytes_ord, cmp_bytes, same,
}
use tandem_verifier_rs.Prelude.Bytes.{from_le_bytes}
use tandem_verifier_rs.Types.Codes.{Opcode, from_byte, payload_len}
use tandem_verifier_rs.Marker.{
  MarkerCandidate, ParsedMarker, find_marker_candidate, read_push, read_candidate, parse,
}
use tandem_verifier_rs.Marker.Strict.{IsStrict, parse-IsStrict, parse-ne_panic}
use tandem_verifier_rs.Roots.{event_root}
use tandem_verifier_rs.Roots.Merkle.{event_root_total}
use tandem_verifier_rs.Examples.Fixtures.{busy, mark_tx, hash_of, toy_crypto}
use tandem_verifier_rs.Examples.Runs.{ran}

-- a CREATE marker of regtest, under a namespace of sevens
abbrev create_payload : List ℕ
create_payload = b'T' ∷ b'N' ∷ b'D' ∷ b'M' ∷ 1 ∷ 3 ∷ 1 ∷ 1 ∷ replicate 32 7

abbrev script : List ℕ
script = 0x6a ∷ 40 ∷ create_payload

abbrev candidate : MarkerCandidate
candidate = record {
  vout = 0;
  declared_len = 40;
  payload = create_payload;
  prefix_complete = true;
  payload_complete = true;
  no_trailing_bytes = true;
  minimal_push = true;
}

abbrev marker : ParsedMarker
marker = record {
  vout = 0;
  version = 1;
  network = 3;
  opcode_byte = 1;
  opcode = some Opcode.create;
  payload = create_payload;
}

script_found : find_marker_candidate script 0 ≡ some candidate
unfolding find_marker_candidate read_push read_candidate same bytes_ord cmp_bytes from_le_bytes
script_found = refl

candidate_parsed : parse candidate ≡ ok marker
unfolding parse from_byte payload_len
candidate_parsed = refl

parse-IsStrict_example : IsStrict candidate marker
parse-IsStrict_example = parse-IsStrict script 0 candidate marker script_found candidate_parsed

parse-ne_panic_example : parse candidate ≢ panic
parse-ne_panic_example = parse-ne_panic script 0 candidate script_found

event_root_total_example : event_root (hash_of 1) (ran busy mark_tx).0 ≢ none
event_root_total_example = event_root_total (hash_of 1) (ran busy mark_tx).0
