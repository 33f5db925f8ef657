-- ===== src/Verifier/Ingest/Progress.antt =====
-- crates/tandem-verifier/src/ingest.rs: undoing stale blocks ends, and a pass that succeeds leaves the
-- worker with the state of the tables.
use tandem_verifier_rs.Prelude.{
  ℕ, zero, suc, ◌≡◌, ◌≢◌, ◌<◌, ◌≤◌, refl, sym, ap, ◌∙◌, Bool, true, false, Option, none, some,
  length, ltb, arith, not,
}
use tandem_verifier_rs.Types.Crypto.{Crypto}
use tandem_verifier_rs.Types.Binding.{Binding}
use tandem_verifier_rs.Types.State.{ChainState, ProtocolStatus, awaiting_init}
use tandem_verifier_rs.Verifier.Release.{ReleaseIdentity}
use tandem_verifier_rs.Verifier.Database.{Database}
use tandem_verifier_rs.Verifier.Store.{Fate, rollback_tip}
use tandem_verifier_rs.Verifier.Store.Journal.{
  IsCanonical, awaiting_tip-IsCanonical, tip_hash-IsCanonical,
}
use tandem_verifier_rs.Verifier.Store.Transactions.{
  Restored, rollback_tip-Restored, rollback_tip-error,
}
use tandem_verifier_rs.Verifier.Ingest.{
  BlockSource, tip_matches, disconnect_tip, is_stale, reconcile_reorg, after_rollback, is_awaiting,
}
use tandem_verifier_rs.Verifier.Ingest.Effects.{
  World, IngestError, out_of_fuel, no_rollback_journal,
}
use tandem_verifier_rs.Verifier.Ingest.Ends.{
  Ends, returns, fails, proceed-Ends, outside-Ends, write-Ends, option-Ends, test-Ends, if-Ends,
}

is_awaiting-eq :
    (status : ProtocolStatus) → not (is_awaiting status) ≡ false → status ≡ awaiting_init
is_awaiting-eq ProtocolStatus.awaiting_init e = refl
is_awaiting-eq (ProtocolStatus.active i o t) e = absurd (ground arith)
is_awaiting-eq (ProtocolStatus.failed_init r i) e = absurd (ground arith)

module _ {W : Type 0} where
  -- An end by an error that is not the model's own, and by no panic.
  abbrev pub Sound : Option IngestError → World W → Type 0
  Sound none w = ⊥
  Sound (some out_of_fuel) w = ⊥
  Sound (some _) w = Unit {0}

  abbrev pub rows : World W → ℕ
  rows w = length w.db.canonical_blocks

  -- The tip, if there is one, is not above the node's best height.
  abbrev pub Settled : ℕ → World W → Type 0
  Settled best_height w = (k : ℕ) → w.state.tip_height ≡ some k → k ≤ best_height

module _ ⦃c : Crypto⦄ (b : Binding) {W : Type 0} where
  -- The tables are canonical, and the worker holds their state.
  abbrev pub InSync : World W → Type 0
  InSync w = (v : IsCanonical b w.db) × (v.state ≡ w.state)

  InSync-tip_hash :
      (w : World W) (h : ℕ) → InSync w → w.state.tip_height ≡ some h → w.state.tip_hash ≢ none
  InSync-tip_hash w h (v, same_state) t e =
      let (tip, hashed) = tip_hash-IsCanonical b h w.db v (ap (λ s. s.tip_height) same_state ∙ t) in
      ground (arith, hashed, same_state)

  -- The tables of `before`, and a tip to undo exactly when the test says so.
  abbrev Tested : ℕ → World W → Bool → World W → Type 0
  Tested best_height before stale w =
      InSync w
      × ((rows w ≡ rows before)
          × ((stale ≡ true → (h : ℕ) × (w.state.tip_height ≡ some h))
              × (stale ≡ false → Settled best_height w)))

  module _ (source : BlockSource W) (next_fate : W → Fate × W) (release : ReleaseIdentity) where
    is_stale-Tested :
        (best_height : ℕ) (w : World W)
        → InSync w
        → Ends (Tested best_height w) Sound (is_stale source next_fate release best_height w)
    unfolding is_stale tip_matches
    is_stale-Tested best_height w (v, same_state) =
        option-Ends w.state.tip_height _ _ w
          (λ q.
            returns false w (
              (v, same_state),
              (refl, (λ e. absurd (ground arith), λ e k t. absurd (ground arith))),
            ))
          (λ h q.
            let low : not (ltb best_height h) ≡ true → Settled best_height w =
              λ e k t. ground (arith, q, t) in
            proceed-Ends {Mid = λ matches w'. Tested best_height w (not matches) w'} _
              (if-Ends (ltb best_height h) _ _ w
                (λ t.
                  returns false w
                    ((v, same_state), (refl, (λ e. (h, q), λ e k t. absurd (ground arith)))))
                (λ t.
                  proceed-Ends _
                    (outside-Ends
                      {Good = λ x w'. (InSync w' × (rows w' ≡ rows w)) × (w'.state ≡ w.state)}
                      (source.block_hash h) w (λ hash x. (((v, same_state), refl), refl)) (λ x. tt))
                    (λ hash w' p.
                      option-Ends w'.state.tip_hash _ _ w'
                        (λ e. absurd (
                          InSync-tip_hash w h (v, same_state) q
                            (sym (ap (λ s. s.tip_hash) p.1) ∙ e)))
                        (λ tip e. returns _ w' (
                          p.0.0,
                          (
                            p.0.1,
                            (
                              λ e. (h, ap (λ s. s.tip_height) p.1 ∙ q),
                              λ e k u. low (ground arith) k (sym (ap (λ s. s.tip_height) p.1) ∙ u),
                            ),
                          ),
                        )))))
              (λ matches w' p. returns (not matches) w' p))

    after_rollback-Ends :
        (restored : Option ChainState) (before : Database) (w : World W)
        → Restored b before w.db restored
        → Ends
            (λ more w'.
              InSync w'
              × ((rows w' < length before.canonical_blocks)
                  × (more ≡ false → w'.state.tip_height ≡ none)))
            Sound
            (after_rollback source next_fate release restored w)
    after_rollback-Ends none before w p = fails no_rollback_journal w tt
    after_rollback-Ends (some s) before w p = returns _ _ (
      (p.0, p.1.0),
      (
        p.1.1,
        λ e.
            sym (ap (λ s. s.tip_height) p.1.0)
            ∙ awaiting_tip-IsCanonical b w.db p.0
                (ap (λ s. s.protocol_status) p.1.0 ∙ is_awaiting-eq s.protocol_status e),
      ),
    )

    disconnect_tip-InSync :
        (h : ℕ) (w : World W)
        → InSync w
        → w.state.tip_height ≡ some h
        → Ends
            (λ more w'.
              InSync w' × ((rows w' < rows w) × (more ≡ false → w'.state.tip_height ≡ none)))
            Sound
            (disconnect_tip source next_fate release w)
    unfolding disconnect_tip
    disconnect_tip-InSync h w (v, same_state) t =
        option-Ends w.state.tip_hash _ _ w (λ e. absurd (InSync-tip_hash w h (v, same_state) t e))
          (λ tip e.
            proceed-Ends _
              (write-Ends {Good = λ x w'. Restored b w.db w'.db x} next_fate rollback_tip w
                (λ fate x a db q. rollback_tip-Restored b fate w.db db a v q) (λ fate x e db q. tt)
                (λ fate x db q. (rollback_tip-error b fate w.db v).0 (ap (λ r. r.0) q)))
              (λ restored w' p. after_rollback-Ends restored w.db w' p))

    -- From the state of canonical tables, with more fuel than there are blocks, undoing stale
    -- blocks ends without a panic and without running out of fuel; where it ends by a value, the
    -- worker holds the state of canonical tables, and its tip, if it has one, is not above the
    -- best height.
    pub reconcile_reorg-InSync :
        (fuel best_height : ℕ) (w : World W)
        → InSync w
        → rows w < fuel
        → Ends
            (λ x w'. InSync w' × Settled best_height w')
            Sound
            (reconcile_reorg source next_fate release fuel best_height w)
    unfolding reconcile_reorg
    reconcile_reorg-InSync zero best_height w v enough = absurd (omega arith)
    reconcile_reorg-InSync (suc fuel) best_height w v enough =
        proceed-Ends _ (is_stale-Tested best_height w v) (λ stale w' p.
          test-Ends stale _ _ w' (λ q. returns tt w' (p.0, p.1.1.1 q))
            (λ q.
              let (h, t) = p.1.1.0 q in
              proceed-Ends _ (disconnect_tip-InSync h w' p.0 t) (λ more w'' s.
                test-Ends more _ _ w''
                  (λ q. returns tt w'' (s.0, λ k e. absurd (ground (arith, s.1.1 q))))
                  (λ q. reconcile_reorg-InSync fuel best_height w'' s.0 (omega (arith, s.1.0))))))
