-- ===== src/Cli/Replay.antt =====
-- crates/tandem-cli/src/main.rs: the replay of a list of blocks.
use tandem_verifier_rs.Prelude.{
  ℕ, ◌+◌, List, [], ◌∷◌, ◌||◌, Option, none, some, length, get_elem?, ◌==◌, nat_eq, Outcome, ok,
  err, panic, ok_or, ◌>>=◌, ◌>>◌,
}
use tandem_verifier_rs.Prelude.Text.{Text, text}
use tandem_verifier_rs.Types.Crypto.{Crypto}
use tandem_verifier_rs.Types.Hex.{HexCodec, protocol_id}
use tandem_verifier_rs.Types.Binding.{Binding}
use tandem_verifier_rs.Types.Views.{BlockView}
use tandem_verifier_rs.Types.State.{ChainState, HeightRoots, new}
use tandem_verifier_rs.Types.State.Equality.{heights_eq}
use tandem_verifier_rs.Reducer.Block.{BlockDelta, Reduced, apply_block}
use tandem_verifier_rs.Cli.Errors.{
  CliError, cannot_read, invalid_json, replay_failed, root_mismatch, length_mismatch, ensure,
}

pub record ReplayInput : Type 0 where
  pub binding : Binding
  pub blocks : List BlockView
  pub expected_roots : List HeightRoots

pub record ReplayReport : Type 0 where
  pub schema : Text
  pub protocol_id : Text
  pub heights : List HeightRoots
  pub event_counts : List ℕ
  pub final_state : ChainState

abbrev pub replay_schema : Text
replay_schema = text "urn:tandem:rust-replay-report"

-- the lists that the loop fills from a block on, and the last state
pub record Replayed : Type 0 where
  pub heights : List HeightRoots
  pub event_counts : List ℕ
  pub last : ChainState

-- `input.expected_roots.get(index)`, with the comparison of the roots
abbrev pub check_roots : Option HeightRoots → HeightRoots → Outcome CliError (Unit {0})
check_roots none roots = ok tt
check_roots (some expected) roots = ensure (roots == expected) root_mismatch

-- `apply_block(..).with_context(..)?`
abbrev pub applied : ℕ → Reduced BlockDelta → Outcome CliError (BlockDelta × ChainState)
applied index (ok delta, s) = ok (delta, s)
applied index (err e, s) = err (replay_failed index e)
applied index (panic, s) = panic

module _ ⦃c : Crypto⦄ where
  -- the loop over the blocks, from an index
  unfoldable pub replay_blocks :
      List HeightRoots → ChainState → ℕ → List BlockView → Outcome CliError Replayed
  replay_blocks expected s index [] = ok (record { heights = []; event_counts = []; last = s })
  replay_blocks expected s index (block ∷ rest) = do
    (delta, s') ← applied index (apply_block s block)
    check_roots (get_elem? expected index) delta.roots
    r ← replay_blocks expected s' (index + 1) rest
    ok (record {
      heights = delta.roots ∷ r.heights;
      event_counts = length delta.events ∷ r.event_counts;
      last = r.last;
    })

  module _ ⦃x : HexCodec⦄ where
    -- `replay`, after the input has been read
    unfoldable pub replay_input : ReplayInput → Outcome CliError ReplayReport
    unfolding replay_blocks protocol_id
    replay_input input = do
      r ← replay_blocks input.expected_roots (new input.binding) 0 input.blocks
      ensure (length input.expected_roots == 0 || length input.expected_roots == length r.heights)
          length_mismatch
      ok (record {
        schema = replay_schema;
        protocol_id = protocol_id r.last.binding;
        heights = r.heights;
        event_counts = r.event_counts;
        final_state = r.last;
      })

    -- `replay`, where `read` is `fs::read` and `parse` reads the JSON of an input
    unfoldable pub replay :
        (Text → Option (List ℕ))
        → (List ℕ → Option ReplayInput)
        → Text
        → Outcome CliError ReplayReport
    unfolding replay_input
    replay read parse path = do
      bytes ← ok_or (read path) cannot_read
      input ← ok_or (parse bytes) invalid_json
      replay_input input
