-- ===== src/Verifier/Rpc/Calls.antt =====
-- crates/tandem-verifier/src/rpc.rs: the JSON-RPC calls of the client, with the requests that it
-- makes and what it reads of the replies. The HTTP exchange answers from a state of its own.
use tandem_verifier_rs.Prelude.{
  ℕ, zero, suc, ◌+◌, ◌%◌, ◌^◌, List, Bool, true, false, Option, none, some, Outcome, ok, err, panic,
  ok_or, ◌==◌, nat_eq, if◌then◌else◌,
}
use tandem_verifier_rs.Prelude.Text.{Text}

-- `i64`: `negsuc n` is `-(n + 1)`.
pub data Int64 : Type 0 where
  pos negsuc : ℕ → Int64

-- `confirmations > 0`
abbrev pub is_positive : Int64 → Bool
is_positive (pos zero) = false
is_positive (pos (suc n)) = true
is_positive (negsuc n) = false

-- `code == -5`
abbrev pub is_minus_five : Int64 → Bool
is_minus_five (pos n) = false
is_minus_five (negsuc n) = n == 4

pub record RpcFailure : Type 0 where
  pub code : Int64
  pub message : Text

pub record RpcEnvelope (T : Type 0) : Type 0 where
  pub result : Option T
  pub error : Option RpcFailure

pub record BlockchainInfo : Type 0 where
  pub chain : Text
  pub blocks : ℕ
  pub headers : ℕ
  pub initialblockdownload : Bool

pub record IndexInfo : Type 0 where
  pub synced : Bool

pub record RawTransactionVerbose : Type 0 where
  pub hex : Text
  pub blockhash : Option Text
  pub confirmations : Option Int64

pub record HeaderVerbose : Type 0 where
  pub height : ℕ

-- The requests of the client, by their method and parameters.
pub data Request : Type 0 where
  getrawtransaction getblockheader getblock : Text → Request
  getblockhash : ℕ → Request
  getblockchaininfo getindexinfo getblockcount getrawmempool : Request

-- The type that a reply is read as. `getindexinfo` is read as a map from the names of indexes.
abbrev pub Reply : Request → Type 0
Reply (getrawtransaction txid) = RawTransactionVerbose
Reply (getblockheader hash) = HeaderVerbose
Reply (getblock hash) = Text
Reply (getblockhash height) = Text
Reply getblockchaininfo = BlockchainInfo
Reply getindexinfo = Text → Option IndexInfo
Reply getblockcount = ℕ
Reply getrawmempool = List Text

-- The errors of the client.
pub data RpcError : Type 0 where
  request_failed invalid_json http_status omitted_result : RpcError
  core : RpcFailure → RpcError
  invalid_transaction other_transaction prevout_out_of_range invalid_txid : RpcError
  invalid_block_hash invalid_block other_block : RpcError

-- What comes of an HTTP exchange: nothing, a body that is not the JSON that is read, or an envelope
-- with whether the HTTP status is a success.
pub data Response (T : Type 0) : Type 0 where
  no_response unreadable : Response T
  envelope : Bool → RpcEnvelope T → Response T

-- `BitcoinCoreRpc`: the request id, and the state of the node. The address and the credentials are
-- those of the exchange.
pub record Session (W : Type 0) : Type 0 where
  pub elsewhere : W
  pub request_id : ℕ

-- The HTTP exchange of a request with its id.
abbrev pub Exchange : Type 0 → Type 0
Exchange W = ℕ → (request : Request) → W → Response (Reply request) × W

abbrev pub Call : Type 0 → Type 0 → Type 0
Call W A = Session W → Outcome RpcError A × Session W

module _ {W : Type 0} where
  abbrev pub proceed :
      {A B : Type 0}
      → Outcome RpcError A × Session W
      → (A → Call W B)
      → Outcome RpcError B × Session W
  proceed (ok a, w) f = f a w
  proceed (err e, w) f = (err e, w)
  proceed (panic, w) f = (panic, w)

  infixl 5 ◌>>=◌ ◌>>◌
  abbrev pub ◌>>=◌ : {A B : Type 0} → Call W A → (A → Call W B) → Call W B
  ◌>>=◌ m f w = proceed (m w) f

  abbrev pub ◌>>◌ : {B : Type 0} → Call W (Unit {0}) → Call W B → Call W B
  ◌>>◌ m k w = proceed (m w) (λ _. k)

  -- a step that makes no call
  abbrev pub lift : {A : Type 0} → Outcome RpcError A → Call W A
  lift r w = (r, w)

  abbrev pub return : {A : Type 0} → A → Call W A
  return a w = (ok a, w)

-- what `call` makes of a response
unfoldable pub read_response : {T : Type 0} → Response T → Outcome RpcError T
read_response no_response = err request_failed
read_response unreadable = err invalid_json
read_response (envelope is_success e) = elim e.error [
  | some failure ↦ err (core failure)
  | none ↦ if is_success then ok_or e.result omitted_result else err http_status
]

-- `BitcoinCoreRpc::call`
unfoldable pub call : {W : Type 0} → Exchange W → (request : Request) → Call W (Reply request)
unfolding read_response
call exchange request w =
    let (response, elsewhere) = exchange w.request_id request w.elsewhere in
    (
      read_response response,
      record { elsewhere = elsewhere; request_id = (w.request_id + 1) % 2 ^ 64 },
    )
