-- ===== src/Marker/Strict.antt =====
-- crates/tandem-core/src/marker.rs: what the strict parse of a found candidate guarantees.
use tandem_verifier_rs.Prelude.{
  ℕ, ◌+◌, ◌-◌, ◌≤◌, ◌≡◌, ◌≢◌, List, true, some, length, get_elem?, get_elem?-ne_none, min, ok,
  panic, arith, Option-cases, inl, inr,
}
use tandem_verifier_rs.Prelude.Bytes.{length-slice}
use tandem_verifier_rs.Types.Codes.{Opcode, from_byte, payload_len}
use tandem_verifier_rs.Marker.{
  MarkerCandidate, ParsedMarker, Push, read_push, read_candidate, find_marker_candidate, parse,
}

-- The payload of a candidate whose push is complete has the declared length.
abbrev pub IsSized : MarkerCandidate → Type 0
IsSized c = c.payload_complete ≡ true → length c.payload ≡ c.declared_len

read_candidate-IsSized :
    (script : List ℕ) (vout : ℕ) (push : Push) (c : MarkerCandidate)
    → read_candidate script vout push ≡ some c
    → IsSized c
unfolding read_candidate
read_candidate-IsSized script vout push c e = λ h. ground (
  arith,
  length-slice script push.prefix_len
      (push.prefix_len + min push.declared_len (length script - push.prefix_len)),
)

find_marker_candidate-IsSized :
    (script : List ℕ) (vout : ℕ) (c : MarkerCandidate)
    → find_marker_candidate script vout ≡ some c
    → IsSized c
unfolding find_marker_candidate
find_marker_candidate-IsSized script vout c e = elim (Option-cases (get_elem? script 1)) [
  | inl q ↦ absurd (ground arith)
  | inr (opcode, q) ↦ elim (Option-cases (read_push script opcode)) [
    | inl r ↦ absurd (ground arith)
    | inr (push, r) ↦ read_candidate-IsSized script vout push c (ground arith)
  ]
]

-- What a strict parse yields: the payload is the candidate's, it has 7 to 80 bytes, its header bytes
-- are the fields, and a known opcode has its own length.
pub record IsStrict (c : MarkerCandidate) (m : ParsedMarker) : Type 0 where
  pub same_payload : m.payload ≡ c.payload
  pub same_vout : m.vout ≡ c.vout
  pub sized : (7 ≤ length m.payload) × (length m.payload ≤ 80)
  pub version_byte : get_elem? m.payload 4 ≡ some m.version
  pub network_byte : get_elem? m.payload 5 ≡ some m.network
  pub opcode_named :
      (get_elem? m.payload 6 ≡ some m.opcode_byte) × (m.opcode ≡ from_byte m.opcode_byte)
  pub exact : (o : Opcode) → m.opcode ≡ some o → length m.payload ≡ payload_len o
  pub whole : (c.minimal_push ≡ true) × (c.no_trailing_bytes ≡ true)

-- A found candidate that parses is strict.
pub parse-IsStrict :
    (script : List ℕ) (vout : ℕ) (c : MarkerCandidate) (m : ParsedMarker)
    → find_marker_candidate script vout ≡ some c
    → parse c ≡ ok m
    → IsStrict c m
unfolding parse
parse-IsStrict script vout c m f e =
    let sized = find_marker_candidate-IsSized script vout c f in
    record {
      same_payload = ground arith;
      same_vout = ground arith;
      sized = ground (arith, sized);
      version_byte = ground arith;
      network_byte = ground arith;
      opcode_named = ground arith;
      exact = λ o q. ground arith;
      whole = ground arith;
    }

-- The parse of a found candidate does not panic.
pub parse-ne_panic :
    (script : List ℕ) (vout : ℕ) (c : MarkerCandidate)
    → find_marker_candidate script vout ≡ some c
    → parse c ≢ panic
unfolding parse
parse-ne_panic script vout c f = λ e.
    let sized = find_marker_candidate-IsSized script vout c f in
    ground (
      arith,
      sized,
      get_elem?-ne_none c.payload 4,
      get_elem?-ne_none c.payload 5,
      get_elem?-ne_none c.payload 6,
    )
