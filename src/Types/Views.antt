-- ===== src/Types/Views.antt =====
-- crates/tandem-core/src/types.rs: the resolved transaction and block views, and the witness
-- decoders of an input.
use tandem_verifier_rs.Prelude.{
  ℕ, List, [], ◌∷◌, Bool, false, Option, none, some, length, get_elem?, take, ltb, ◌==◌, nat_eq,
  bytes_eq, if◌then◌else◌, option_eq,
}
use tandem_verifier_rs.Prelude.Maybe.{◌>>=◌, ◌>>◌, require}
use tandem_verifier_rs.Prelude.Bytes.{slice}
use tandem_verifier_rs.Types.Hash.{Hash32, Key33, OutPointRef}
use tandem_verifier_rs.Types.Crypto.{Crypto}
use tandem_verifier_rs.Types.Keys.{KeyPair, p2wpkh_script, is_valid, checked, carrier_script}

pub record InputView : Type 0 where
  pub prevout : OutPointRef
  pub sequence : ℕ
  pub script_sig : List ℕ
  pub witness : List (List ℕ)
  pub prevout_value : ℕ
  pub prevout_script : List ℕ
  pub prevout_height : Option ℕ
  pub signatures_valid : Bool

pub record OutputView : Type 0 where
  pub value : ℕ
  pub script_pubkey : List ℕ

-- `version` is an `i32`: its bit pattern, which the program only compares with 2.
pub record TxView : Type 0 where
  pub txid : Hash32
  pub wtxid : Hash32
  pub version : ℕ
  pub lock_time : ℕ
  pub inputs : List InputView
  pub outputs : List OutputView

pub record BlockView : Type 0 where
  pub hash : Hash32
  pub previous_hash : Hash32
  pub height : ℕ
  pub transactions : List TxView

-- `try_into::<[u8; 33]>().ok()`
abbrev pub to_key : List ℕ → Option Key33
to_key bytes = if length bytes == 33 then some (record { bytes = bytes }) else none

-- `InputView::p2wpkh_revealed_key`
unfoldable pub p2wpkh_revealed_key : InputView → Option Key33
p2wpkh_revealed_key input = do
  require (length input.script_sig == 0)
  require (length input.witness == 2)
  require (length input.prevout_script == 22)
  require (take 2 input.prevout_script == 0x00 ∷ 0x14 ∷ [])
  item ← get_elem? input.witness 1
  to_key item

-- `InputView::carrier_revealed_keys`
unfoldable pub carrier_revealed_keys : InputView → Option (Key33 × Key33)
carrier_revealed_keys input = do
  require (length input.script_sig == 0)
  require (length input.witness == 4)
  first ← get_elem? input.witness 0
  require (length first == 0)
  require (length input.prevout_script == 34)
  require (take 2 input.prevout_script == 0x00 ∷ 0x20 ∷ [])
  script ← get_elem? input.witness 3
  require (length script == 71)
  require (slice script 0 2 == 0x52 ∷ 0x21 ∷ [])
  require (get_elem? script 35 == some 0x21)
  require (slice script 69 71 == 0x52 ∷ 0xae ∷ [])
  key0 ← to_key (slice script 2 35)
  key1 ← to_key (slice script 36 69)
  some (key0, key1)

-- `InputView::has_earlier_confirmation`
unfoldable pub has_earlier_confirmation : InputView → ℕ → Bool
has_earlier_confirmation input block_height = elim input.prevout_height [
  | none ↦ false
  | some height ↦ ltb height block_height
]

module _ ⦃c : Crypto⦄ where
  -- `InputView::p2wpkh_key`
  unfoldable pub p2wpkh_key : InputView → Option Key33
  p2wpkh_key input = do
    key ← p2wpkh_revealed_key input
    require (is_valid key)
    require (p2wpkh_script key == input.prevout_script)
    some key

  -- `InputView::carrier_keys`
  unfoldable pub carrier_keys : InputView → Option KeyPair
  carrier_keys input = do
    (key0, key1) ← carrier_revealed_keys input
    pair ← checked key0 key1
    require (carrier_script pair == input.prevout_script)
    some pair
