-- ===== src/Verifier/Status.antt =====
-- crates/tandem-verifier/src/rpc.rs: the readiness of the node.
use tandem_verifier_rs.Prelude.{ℕ, Bool, not, ◌&&◌, ◌==◌, nat_eq, bytes_eq}
use tandem_verifier_rs.Prelude.Text.{Text, text}
use tandem_verifier_rs.Types.Codes.{Network, mainnet, signet, testnet4, regtest}

pub record CoreStatus : Type 0 where
  pub chain : Text
  pub blocks : ℕ
  pub headers : ℕ
  pub initial_block_download : Bool
  pub txindex_synced : Bool

-- the label of the network on the node
abbrev pub core_chain : Network → Text
core_chain mainnet = text "main"
core_chain signet = text "signet"
core_chain testnet4 = text "testnet4"
core_chain regtest = text "regtest"

-- `CoreStatus::ready_for`
unfoldable pub ready_for : CoreStatus → Network → Bool
ready_for status network =
    status.chain == core_chain network
    && (status.blocks == status.headers
        && (not status.initial_block_download && status.txindex_synced))
