-- ===== src/Marker.antt =====
-- crates/tandem-core/src/marker.rs: broad detection of marker candidates in an output script, and
-- the strict parse of a candidate's payload.
pub mod Strict
use tandem_verifier_rs.Prelude.{
  ℕ, ◌+◌, ◌-◌, ◌≡◌, List, [], ◌∷◌, Bool, true, false, not, ◌&&◌, ◌||◌, Option, none, some, length,
  get_elem?, take, drop, ltb, leb, min, ◌==◌, ◌≠◌, nat_eq, bytes_eq, option_eq, if◌then◌else◌,
  Outcome, ok, reject_if, expect, ◌>>=◌, ◌>>◌,
}
use tandem_verifier_rs.Prelude.Maybe
use tandem_verifier_rs.Prelude.Maybe.{require}
use tandem_verifier_rs.Prelude.Bytes.{slice, get_slice, from_le_bytes}
use tandem_verifier_rs.Types.Hash.{Hash32}
use tandem_verifier_rs.Types.Codes.{
  Opcode, Reason, magic, from_byte, payload_len, is_init, bad_marker_encoding_or_length,
}

pub record MarkerCandidate : Type 0 where
  pub vout : ℕ
  pub declared_len : ℕ
  pub payload : List ℕ
  pub prefix_complete : Bool
  pub payload_complete : Bool
  pub no_trailing_bytes : Bool
  pub minimal_push : Bool

pub record ParsedMarker : Type 0 where
  pub vout : ℕ
  pub version : ℕ
  pub network : ℕ
  pub opcode_byte : ℕ
  pub opcode : Option Opcode
  pub payload : List ℕ

-- The push of a script: declared length, prefix length, whether the prefix is complete, and
-- whether the push is minimal.
pub record Push : Type 0 where
  pub declared_len : ℕ
  pub prefix_len : ℕ
  pub prefix_complete : Bool
  pub minimal_push : Bool

abbrev push_of : ℕ → ℕ → Bool → Push
push_of declared prefix minimal = record {
  declared_len = declared;
  prefix_len = prefix;
  prefix_complete = true;
  minimal_push = minimal;
}

-- The `match opcode` of `find_marker_candidate`.
unfoldable pub read_push : List ℕ → ℕ → Option Push
read_push script opcode =
    if leb 0x01 opcode && leb opcode 0x4b
    then some (push_of opcode 2 true)
    else if opcode == 0x4c
    then Maybe.◌>>=◌ (get_elem? script 2)
        (λ (length : ℕ). some (push_of length 3 (leb 0x4c length)))
    else if opcode == 0x4d
    then Maybe.◌>>=◌ (get_slice script 2 4) (λ (bytes : List ℕ).
      let length = from_le_bytes bytes in some (push_of length 4 (ltb 0xff length)))
    else if opcode == 0x4e
    then Maybe.◌>>=◌ (get_slice script 2 6) (λ (bytes : List ℕ).
      let length = from_le_bytes bytes in some (push_of length 6 (ltb 0xffff length)))
    else none

-- The rest of `find_marker_candidate`, after the push prefix.
unfoldable pub read_candidate : List ℕ → ℕ → Push → Option MarkerCandidate
read_candidate script vout push =
    let available = length script - push.prefix_len in
    let physical_len = min push.declared_len available in
    if not push.prefix_complete || ltb push.declared_len 4
    then none
    else if ltb available 4 || get_slice script push.prefix_len (push.prefix_len + 4) ≠ some magic
    then none
    else some (record {
      vout = vout;
      declared_len = push.declared_len;
      payload = slice script push.prefix_len (push.prefix_len + physical_len);
      prefix_complete = push.prefix_complete;
      payload_complete = leb push.declared_len available;
      no_trailing_bytes = available == push.declared_len;
      minimal_push = push.minimal_push;
    })

-- `find_marker_candidate`
unfoldable pub find_marker_candidate : List ℕ → ℕ → Option MarkerCandidate
find_marker_candidate script vout =
    if get_elem? script 0 ≠ some 0x6a
    then none
    else Maybe.◌>>=◌ (get_elem? script 1)
        (λ (opcode : ℕ). Maybe.◌>>=◌ (read_push script opcode) (read_candidate script vout))

-- `MarkerCandidate::opcode_byte`
unfoldable pub opcode_byte : MarkerCandidate → Option ℕ
opcode_byte c = get_elem? c.payload 6

-- `MarkerCandidate::is_init_candidate`
unfoldable pub is_init_candidate : MarkerCandidate → Bool
unfolding opcode_byte
is_init_candidate c = opcode_byte c == some 0

-- `opcode.is_some_and(|value| value.payload_len() != payload.len())`
abbrev pub wrong_length : Option Opcode → ℕ → Bool
wrong_length none len = false
wrong_length (some opcode) len = payload_len opcode ≠ len

-- `MarkerCandidate::parse`; the one field of `MarkerError` is the reason.
unfoldable pub parse : MarkerCandidate → Outcome Reason ParsedMarker
parse c = do
  reject_if
      (not c.prefix_complete
        || not (leb 7 c.declared_len && leb c.declared_len 80)
        || not c.payload_complete
        || not c.no_trailing_bytes
        || not c.minimal_push)
      bad_marker_encoding_or_length
  version ← expect (get_elem? c.payload 4)
  network ← expect (get_elem? c.payload 5)
  opcode_byte ← expect (get_elem? c.payload 6)
  reject_if (wrong_length (from_byte opcode_byte) (length c.payload)) bad_marker_encoding_or_length
  ok (record {
    vout = c.vout;
    version = version;
    network = network;
    opcode_byte = opcode_byte;
    opcode = from_byte opcode_byte;
    payload = c.payload;
  })

module _ {ℓ} {E : Type ℓ} where
  -- `payload[start..start + width]`, which panics out of range
  unfoldable pub bytes_at : ParsedMarker → ℕ → ℕ → Outcome E (List ℕ)
  bytes_at m start width = expect (get_slice m.payload start (start + width))

  -- `ParsedMarker::u32_at`
  unfoldable pub u32_at : ParsedMarker → ℕ → Outcome E ℕ
  u32_at m start = ◌>>=◌ (bytes_at m start 4) (λ b. ok (from_le_bytes b))

  -- `ParsedMarker::u64_at`
  unfoldable pub u64_at : ParsedMarker → ℕ → Outcome E ℕ
  u64_at m start = ◌>>=◌ (bytes_at m start 8) (λ b. ok (from_le_bytes b))

  -- `ParsedMarker::hash_at`
  unfoldable pub hash_at : ParsedMarker → ℕ → Outcome E Hash32
  hash_at m start = ◌>>=◌ (bytes_at m start 32) (λ b. ok (record { bytes = b }))

  -- `payload[index]`, which panics out of range
  unfoldable pub byte_at : ParsedMarker → ℕ → Outcome E ℕ
  byte_at m index = expect (get_elem? m.payload index)
