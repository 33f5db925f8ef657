-- ===== src/Verifier/Ingest/Reaches.antt =====
-- crates/tandem-verifier/src/ingest.rs: a pass that succeeds brings the worker to the node's height.
use tandem_verifier_rs.Prelude.{
  ℕ, zero, suc, ◌+◌, ◌-◌, ◌≡◌, ◌≤◌, refl, sym, subst, ◌∙◌, Option, none, some, Outcome, ok, err,
  panic, arith, ◌<◌, ap, Option-cases, inl, inr,
}
use tandem_verifier_rs.Prelude.Word.{checked_add}
use tandem_verifier_rs.Types.Codes.{u64_max}
use tandem_verifier_rs.Types.Crypto.{Crypto}
use tandem_verifier_rs.Types.Views.{BlockView}
use tandem_verifier_rs.Types.Binding.{Binding}
use tandem_verifier_rs.Types.State.{ChainState}
use tandem_verifier_rs.Reducer.Block
use tandem_verifier_rs.Reducer.Block.{BlockDelta, Reduced}
use tandem_verifier_rs.Reducer.Block.Linkage.{apply_block-Recorded}
use tandem_verifier_rs.Verifier.Release.{ReleaseIdentity}
use tandem_verifier_rs.Verifier.Store
use tandem_verifier_rs.Verifier.Store.{Fate, replace_mempool}
use tandem_verifier_rs.Verifier.Store.Journal.{IsCanonical}
use tandem_verifier_rs.Verifier.Store.Transactions.{
  apply_block-Committed, replace_mempool-Committed,
}
use tandem_verifier_rs.Verifier.Status.{ready_for}
use tandem_verifier_rs.Verifier.Ingest.{
  BlockSource, reload, persisted, persist, ingest_block, catch_up, first_height, refresh_mempool,
  catch_up_from, catch_up_all, run_once, reduced_run,
}
use tandem_verifier_rs.Verifier.Ingest.Effects.{World, IngestError}
use tandem_verifier_rs.Verifier.Ingest.Ends.{
  Ends, returns, fails, panics, proceed-Ends, outside-Ends, write-Ends, option-Ends, if-Ends,
  Ends-ok, Ends-total, outside-Asked,
}
use tandem_verifier_rs.Verifier.Ingest.Progress.{
  InSync, Sound, rows, Settled, reconcile_reorg-InSync,
}

module _ {W : Type 0} (source : BlockSource W) where
  -- The node gives this height, if it gives one, for the INIT transaction of the binding.
  abbrev pub Answered : ChainState → Option ℕ → Type 0
  Answered s init = (x : W) × ((source.transaction_height s.binding.init_txid x).0 ≡ some init)

  -- The tip is at the node's best height; or there is no tip, and the node has no height for the
  -- INIT transaction, or one above its best height.
  pub data AtBest (n : ℕ) (s : ChainState) : Type 0 where
    at_tip : s.tip_height ≡ some n → AtBest n s
    before_init :
        (init : Option ℕ)
        → s.tip_height ≡ none
        → Answered s init
        → ((k : ℕ) → init ≡ some k → n < k)
        → AtBest n s

module _ ⦃c : Crypto⦄ (b : Binding) {W : Type 0} where
  abbrev Any : Option IngestError → World W → Type 0
  Any e w = Unit {0}

  -- What holds at every end by a value, whatever is known of the others.
  Sound-Any :
      {A : Type 0} {Good : A → World W → Type 0} {r : Outcome IngestError A × World W}
      → Ends Good Sound r
      → Ends Good Any r
  Sound-Any (returns a w v) = returns a w v
  Sound-Any (fails e w v) = fails e w tt
  Sound-Any (panics w v) = panics w tt

  -- A block of this height fits on the tip, which is not above the node's best height.
  abbrev Next : ℕ → ℕ → World W → Type 0
  Next n height w = (k : ℕ) → w.state.tip_height ≡ some k → (height ≡ k + 1) × (height ≤ n + 1)

  -- The first height to ingest; without a tip, it is the node's answer for the INIT transaction.
  abbrev First : BlockSource W → ℕ → Option ℕ → World W → Type 0
  First source n none w = (w.state.tip_height ≡ none) × Answered source w.state none
  First source n (some height) w =
      Next n height w × (w.state.tip_height ≡ none → Answered source w.state (some height))

  -- The node gives blocks of the height that it is asked for.
  abbrev pub OwnHeights : BlockSource W → Type 0
  OwnHeights source =
      (height : ℕ) (x : W) (block : BlockView)
      → (source.block height x).0 ≡ some block
      → block.height ≡ height

  -- The node's best height is `n` whenever it is asked.
  abbrev pub BestHeight : BlockSource W → ℕ → Type 0
  BestHeight source n = (x : W) (m : ℕ) → (source.best_height x).0 ≡ some m → m ≡ n

  First-none :
      (source : BlockSource W) (n : ℕ) (w : World W) (first : Option ℕ)
      → w.state.tip_height ≡ none
      → Answered source w.state first
      → First source n first w
  First-none source n w none q a = (q, a)
  First-none source n w (some h) q a = (λ k e. absurd (ground arith), λ t. a)

  AtBest-done :
      (source : BlockSource W) (n height : ℕ) (w : World W)
      → n < height
      → First source n (some height) w
      → AtBest source n w.state
  AtBest-done source n height w above (next, told) = elim (Option-cases w.state.tip_height) [
    | inl q ↦ before_init (some height) q (told q) (λ k e. ground arith)
    | inr (k, q) ↦ let t = next k q in at_tip (q ∙ ap some (let same : k ≡ n = omega arith in same))
  ]

  module _ (source : BlockSource W) (next_fate : W → Fate × W) (release : ReleaseIdentity) where
    persisted-Ends :
        (delta : BlockDelta) {P : World W → Type 0} {r : Outcome IngestError (Unit {0}) × World W}
        → Ends (λ x. P) Any r
        → Ends (λ x. P) Any (persisted source next_fate release delta r)
    unfolding persisted
    persisted-Ends delta (returns x w v) = returns tt w v
    persisted-Ends delta (fails e w v) =
        proceed-Ends _ (Ends-total (reload source next_fate release delta w))
          (λ x w v. fails e w tt)
    persisted-Ends delta (panics w v) = panics w tt

    reduced_run-Reduced :
        (block : BlockView) (s : ChainState) (w : World W) (r : Reduced BlockDelta)
        → Block.apply_block s block ≡ r
        → Ends
            (λ delta w'. (w'.db ≡ w.db) × (Block.apply_block s block ≡ (ok delta, w'.state)))
            Any
            (reduced_run source next_fate release w r)
    reduced_run-Reduced block s w (ok delta, t) e = returns _ _ (refl, e)
    reduced_run-Reduced block s w (err x, t) e = fails _ _ tt
    reduced_run-Reduced block s w (panic, t) e = panics _ tt

    ingest_block-InSync :
        (block : BlockView) (w : World W)
        → InSync b w
        → Ends
            (λ x w'. InSync b w' × (w'.state.tip_height ≡ some block.height))
            Any
            (ingest_block source next_fate release block w)
    unfolding ingest_block persist
    ingest_block-InSync block w (v, same_state) =
        proceed-Ends _ (reduced_run-Reduced block w.state w (Block.apply_block w.state block) refl)
          (λ delta w' p. persisted-Ends delta (
            write-Ends next_fate (λ fate. Store.apply_block fate w'.state delta release) w'
              (λ fate x a db q. (
                apply_block-Committed b fate w.state w'.state block delta release w'.db db a p.1
                    (subst (IsCanonical b) (sym p.0) v) q,
                (apply_block-Recorded w.state w'.state block delta p.1).tip_height,
              ))
              (λ fate x e db q. tt) (λ fate x db q. tt)))

    catch_up-AtBest :
        (own : OwnHeights source) (n count height : ℕ) (w : World W)
        → count ≡ n + 1 - height
        → InSync b w
        → First source n (some height) w
        → Ends
            (λ x w'. InSync b w' × AtBest source n w'.state)
            Any
            (catch_up source next_fate release count height w)
    unfolding catch_up
    catch_up-AtBest own n zero height w all v next =
        returns tt w (v, AtBest-done source n height w (omega arith) next)
    catch_up-AtBest own n (suc count) height w all v next =
        proceed-Ends {Mid = λ block w'. InSync b w' × (block.height ≡ height)} _
          (outside-Asked (source.block height) w (λ block x q. (v, own height w.elsewhere block q))
            (λ x. tt))
          (λ block w' p. proceed-Ends _ (ingest_block-InSync block w' p.0) (λ x w'' q.
            catch_up-AtBest own n count (height + 1) w'' (omega arith) q.0 (
              λ k e. (let t : k ≡ height = ground (arith, p.1, q.1) in (omega arith, omega arith)),
              λ none_left. absurd (ground (arith, q.1)),
            )))

    first_height-First :
        (n : ℕ) (w : World W)
        → InSync b w
        → Settled n w
        → Ends
            (λ first w'. InSync b w' × First source n first w')
            Any
            (first_height source next_fate release w)
    unfolding first_height
    first_height-First n w v low =
        option-Ends w.state.tip_height _ _ w
          (λ q.
            outside-Asked (source.transaction_height w.state.binding.init_txid) w
              (λ first x e. (v, First-none source n _ first q (w.elsewhere, e))) (λ x. tt))
          (λ tip q.
            option-Ends (checked_add u64_max tip 1) _ _ w (λ e. fails _ w tt)
              (λ h e. returns _ w (
                v,
                (
                  λ k e'. (let t = low k e' in (ground arith, ground arith)),
                  λ t. absurd (ground arith),
                ),
              )))

    refresh_mempool-Ends :
        (P : ChainState → Type 0) (w : World W)
        → InSync b w
        → P w.state
        → Ends (λ x w'. InSync b w' × P w'.state) Any (refresh_mempool source next_fate release w)
    unfolding refresh_mempool
    refresh_mempool-Ends P w v p =
        proceed-Ends {Mid = λ x w'. InSync b w' × P w'.state} _
          (outside-Ends source.mempool w (λ mempool x. (v, p)) (λ x. tt))
          (λ mempool w' s.
            write-Ends next_fate (λ fate. replace_mempool fate mempool) w'
              (λ fate x a db q.
                let (u, same_state) = replace_mempool-Committed b fate mempool w'.db db a s.0.0 q in
                ((u, same_state ∙ s.0.1), s.1))
              (λ fate x e db q. tt) (λ fate x db q. tt))

    catch_up_from-AtBest :
        (own : OwnHeights source) (n : ℕ) (first : Option ℕ) (w : World W)
        → InSync b w
        → First source n first w
        → Ends
            (λ x w'. InSync b w' × AtBest source n w'.state)
            Any
            (catch_up_from source next_fate release n first w)
    catch_up_from-AtBest own n none w v q =
        refresh_mempool-Ends (AtBest source n) w v
          (before_init none q.0 q.1 (λ k e. absurd (ground arith)))
    catch_up_from-AtBest own n (some height) w v q =
        proceed-Ends _ (catch_up-AtBest own n (n + 1 - height) height w refl v q)
          (λ x w' s. refresh_mempool-Ends (AtBest source n) w' s.0 s.1)

    catch_up_all-AtBest :
        (own : OwnHeights source) (n : ℕ) (w : World W)
        → InSync b w
        → Settled n w
        → Ends
            (λ x w'. InSync b w' × AtBest source n w'.state)
            Any
            (catch_up_all source next_fate release n w)
    unfolding catch_up_all
    catch_up_all-AtBest own n w v low =
        proceed-Ends _ (first_height-First n w v low)
          (λ first w' p. catch_up_from-AtBest own n first w' p.0 p.1)

    -- Where the node gives blocks of the heights that it is asked for and has the best height `n`
    -- whenever it is asked, a pass that succeeds, from the state of canonical tables, leaves the
    -- worker with the state of canonical tables and its tip at height `n`; it has no tip only if the
    -- node has no height for the INIT transaction, or one above `n`.
    pub run_once-AtBest :
        (own : OwnHeights source) (n : ℕ) (best : BestHeight source n) (w w' : World W)
        (x : Unit {0})
        → InSync b w
        → run_once source next_fate release w ≡ (ok x, w')
        → InSync b w' × AtBest source n w'.state
    unfolding run_once
    run_once-AtBest own n best w w' x v q =
        Ends-ok
          (proceed-Ends _ (outside-Ends source.status w (λ status x. (v, refl)) (λ x. tt))
            (λ status w1 p.
              proceed-Ends _
                (if-Ends (ready_for status w1.state.binding.network) _ _ w1 (λ q. returns tt w1 p)
                  (λ q. fails _ w1 tt))
                (λ x w2 p.
                  proceed-Ends _
                    (outside-Asked {Good = λ m w'. (InSync b w' × (rows w' ≡ rows w)) × (m ≡ n)}
                      source.best_height w2 (λ m x e. (p, best w2.elsewhere m e)) (λ x. tt))
                    (λ m w3 p.
                      proceed-Ends _
                        (Sound-Any (
                          reconcile_reorg-InSync b source next_fate release _ m w3 p.0.0
                            (omega arith)))
                        (λ x w4 s.
                          subst
                            (λ n.
                              Ends (λ x w'. InSync b w' × AtBest source n w'.state) Any
                                (catch_up_all source next_fate release m w4))
                            p.1 (catch_up_all-AtBest own m w4 s.0 s.1))))))
          q
