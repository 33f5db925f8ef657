-- ===== src/Cli/Replayed.antt =====
-- crates/tandem-cli/src/main.rs: a replay is accepted exactly if its blocks apply one after the other
-- and have the expected roots.
use tandem_verifier_rs.Prelude.{
  ℕ, suc, ◌+◌, ◌≡◌, ◌↔◌, ◌⊎◌, inl, inr, refl, sym, ap, ap₂, subst, ◌∙◌, List, [], ◌∷◌, map, ◌||◌,
  Bool-cases, Option, none, some, length, get_elem?, ◌==◌, nat_eq, ok, err, panic, bind-ok,
  ok-injective, arith,
}
use tandem_verifier_rs.Types.Crypto.{Crypto}
use tandem_verifier_rs.Types.Hex.{HexCodec, protocol_id}
use tandem_verifier_rs.Types.Views.{BlockView}
use tandem_verifier_rs.Types.State.{ChainState, HeightRoots, new}
use tandem_verifier_rs.Types.State.Equality.{heights_eq}
use tandem_verifier_rs.Reducer.Block.{BlockDelta, Reduced, apply_block}
use tandem_verifier_rs.Cli.Errors.{ensure, length_mismatch}
use tandem_verifier_rs.Cli.Replay.{
  ReplayInput, ReplayReport, Replayed, replay_schema, check_roots, applied, replay_blocks,
  replay_input,
}

abbrev pub roots_of : List BlockDelta → List HeightRoots
roots_of deltas = map (λ (d : BlockDelta). d.roots) deltas

abbrev pub counts_of : List BlockDelta → List ℕ
counts_of deltas = map (λ (d : BlockDelta). length d.events) deltas

add_one : (n : ℕ) → n + 1 ≡ suc n
add_one n = omega arith

-- The roots agree with the expected ones, where there are such, from an index on.
abbrev Agree : List HeightRoots → ℕ → List HeightRoots → Type 0
Agree expected index [] = Unit {0}
Agree expected index (h ∷ hs) =
    ((e : HeightRoots) → get_elem? expected index ≡ some e → h ≡ e) × Agree expected (suc index) hs

check_roots-ok :
    (o : Option HeightRoots) (h : HeightRoots)
    → check_roots o h ≡ ok tt
    → (e : HeightRoots) → o ≡ some e
    → h ≡ e
check_roots-ok none h q e q' = absurd (ground arith)
check_roots-ok (some x) h q e q' = elim (Bool-cases (h == x)) [
  | inl t ↦ (heights_eq.beq_iff h x).0 t ∙ ground arith
  | inr t ↦ absurd (ground arith)
]

check_roots-Agree :
    (o : Option HeightRoots) (h : HeightRoots)
    → ((e : HeightRoots) → o ≡ some e → h ≡ e)
    → check_roots o h ≡ ok tt
check_roots-Agree none h a = refl
check_roots-Agree (some e) h a = rw ((heights_eq.beq_iff h e).1 (a e refl)) refl

Agree-tail :
    (e : HeightRoots) (expected : List HeightRoots) (index : ℕ) (hs : List HeightRoots)
    → Agree (e ∷ expected) (suc index) hs
    → Agree expected index hs
Agree-tail e expected index [] a = tt
Agree-tail e expected index (h ∷ hs) a = (λ x q. a.0 x q, Agree-tail e expected (suc index) hs a.1)

Agree-nil : (index : ℕ) (hs : List HeightRoots) → Agree [] index hs
Agree-nil index [] = tt
Agree-nil index (h ∷ hs) = (λ x q. absurd (ground arith), Agree-nil (suc index) hs)

Agree-cons :
    (e : HeightRoots) (expected : List HeightRoots) (index : ℕ) (hs : List HeightRoots)
    → Agree expected index hs
    → Agree (e ∷ expected) (suc index) hs
Agree-cons e expected index [] a = tt
Agree-cons e expected index (h ∷ hs) a = (λ x q. a.0 x q, Agree-cons e expected (suc index) hs a.1)

Agree-refl : (hs : List HeightRoots) → Agree hs 0 hs
Agree-refl [] = tt
Agree-refl (h ∷ hs) = (λ x q. ground arith, Agree-cons h hs 0 hs (Agree-refl hs))

-- what is expected, of as many roots as there are, are the roots
Agree-eq :
    (expected hs : List HeightRoots)
    → length expected ≡ length hs
    → Agree expected 0 hs
    → expected ≡ hs
Agree-eq [] [] e a = refl
Agree-eq [] (h ∷ hs) e a = absurd (omega arith)
Agree-eq (x ∷ expected) [] e a = absurd (omega arith)
Agree-eq (x ∷ expected) (h ∷ hs) e a =
    ap₂ (λ y ys. y ∷ ys) (sym (a.0 x refl))
      (Agree-eq expected hs (omega arith) (Agree-tail x expected 0 hs a.1))

module _ ⦃c : Crypto⦄ where
  -- The blocks apply one after the other, with these journal entries.
  pub data Replays : ChainState → List BlockView → List BlockDelta → ChainState → Type 0 where
    done : {s : ChainState} → Replays s [] [] s
    next :
        {s t u : ChainState} {blocks : List BlockView} {deltas : List BlockDelta}
        (block : BlockView) (delta : BlockDelta)
        → apply_block s block ≡ (ok delta, t)
        → Replays t blocks deltas u
        → Replays s (block ∷ blocks) (delta ∷ deltas) u

  applied-ok :
      (index : ℕ) (r : Reduced BlockDelta) (delta : BlockDelta) (t : ChainState)
      → applied index r ≡ ok (delta, t)
      → r ≡ (ok delta, t)
  applied-ok index (ok d, s) delta t e = ground arith
  applied-ok index (err x, s) delta t e = absurd (ground arith)
  applied-ok index (panic, s) delta t e = absurd (ground arith)

  -- What the loop has done from a block on.
  abbrev Done : List HeightRoots → ChainState → ℕ → List BlockView → Replayed → Type 0
  Done expected s index blocks r =
      (deltas : List BlockDelta) × Replays s blocks deltas r.last
      × (r.heights ≡ roots_of deltas)
      × (r.event_counts ≡ counts_of deltas)
      × Agree expected index r.heights

  replay_blocks-Done :
      (expected : List HeightRoots) (s : ChainState) (index : ℕ) (blocks : List BlockView)
      (r : Replayed)
      → replay_blocks expected s index blocks ≡ ok r
      → Done expected s index blocks r
  unfolding replay_blocks
  replay_blocks-Done expected s index [] r e =
      subst (Done expected s index []) (ok-injective e) ([], done, refl, refl, tt)
  replay_blocks-Done expected s index (block ∷ rest) r e =
      let (d, (q, e0)) = bind-ok (applied index (apply_block s block)) e in
      let (u, (q', e1)) = bind-ok (check_roots (get_elem? expected index) d.0.roots) e0 in
      let (r', (q'', e2)) = bind-ok (replay_blocks expected d.1 (index + 1) rest) e1 in
      let (deltas, run, heights, counts, agree) =
        replay_blocks-Done expected d.1 (index + 1) rest r' q'' in
      subst (Done expected s index (block ∷ rest)) (ok-injective e2) (
        d.0 ∷ deltas,
        next block d.0 (applied-ok index _ d.0 d.1 q) run,
        ap (λ hs. d.0.roots ∷ hs) heights,
        ap (λ ns. length d.0.events ∷ ns) counts,
        (
          check_roots-ok _ d.0.roots q',
          subst (λ n. Agree expected n r'.heights) (add_one index) agree,
        ),
      )

  -- A run of the blocks, in the form that the loop computes it.
  abbrev replayed_of : List BlockDelta → ChainState → Replayed
  replayed_of deltas s = record {
    heights = roots_of deltas;
    event_counts = counts_of deltas;
    last = s;
  }

  Done-replay_blocks :
      (expected : List HeightRoots) {s t : ChainState} (index : ℕ) {blocks : List BlockView}
      {deltas : List BlockDelta}
      → Replays s blocks deltas t
      → Agree expected index (roots_of deltas)
      → replay_blocks expected s index blocks ≡ ok (replayed_of deltas t)
  unfolding replay_blocks
  Done-replay_blocks expected index done a = refl
  Done-replay_blocks expected index (next {deltas} block delta e run) a =
      rw
        (
          e,
          check_roots-Agree _ delta.roots a.0,
          Done-replay_blocks expected (index + 1) run
              (subst (λ n. Agree expected n (roots_of deltas)) (sym (add_one index)) a.1),
        )
        refl

  module _ ⦃x : HexCodec⦄ where
    -- The report of a run of the blocks of the input.
    pub record IsReplay (input : ReplayInput) (report : ReplayReport) : Type 0 where
      pub deltas : List BlockDelta
      pub run : Replays (new input.binding) input.blocks deltas report.final_state
      pub heights : report.heights ≡ roots_of deltas
      pub event_counts : report.event_counts ≡ counts_of deltas
      pub expected : (input.expected_roots ≡ []) ⊎ (input.expected_roots ≡ report.heights)
      pub schema : report.schema ≡ replay_schema
      pub protocol_id : report.protocol_id ≡ protocol_id report.final_state.binding

    checked_expected :
        (expected hs : List HeightRoots)
        → Agree expected 0 hs
        → ensure (length expected == 0 || length expected == length hs) length_mismatch ≡ ok tt
        → (expected ≡ []) ⊎ (expected ≡ hs)
    checked_expected [] hs a e = inl refl
    checked_expected (x ∷ expected) hs a e = inr (Agree-eq (x ∷ expected) hs (ground arith) a)

    expected_checked :
        (expected hs : List HeightRoots)
        → (expected ≡ []) ⊎ (expected ≡ hs)
        → ensure (length expected == 0 || length expected == length hs) length_mismatch ≡ ok tt
    expected_checked expected hs (inl e) = rw (e) refl
    expected_checked expected hs (inr e) =
        let same : length expected ≡ length hs = ap length e in ground arith

    expected-Agree :
        (expected hs : List HeightRoots) → (expected ≡ []) ⊎ (expected ≡ hs) → Agree expected 0 hs
    expected-Agree expected hs (inl e) = rw (e) (Agree-nil 0 hs)
    expected-Agree expected hs (inr e) = rw (e) (Agree-refl hs)

    replay_input-IsReplay :
        (input : ReplayInput) (report : ReplayReport)
        → replay_input input ≡ ok report
        → IsReplay input report
    unfolding replay_input
    replay_input-IsReplay input report e =
        let (r, (q, e0)) =
          bind-ok (replay_blocks input.expected_roots (new input.binding) 0 input.blocks) e in
        let (u, (q', e1)) =
          bind-ok
            (ensure
              (length input.expected_roots == 0 || length input.expected_roots == length r.heights)
              length_mismatch)
            e0 in
        let (deltas, run, heights, counts, agree) = replay_blocks-Done _ _ 0 _ r q in
        subst (IsReplay input) (ok-injective e1) (record {
          deltas = deltas;
          run = run;
          heights = heights;
          event_counts = counts;
          expected = checked_expected _ _ agree q';
          schema = refl;
          protocol_id = refl;
        })

    IsReplay-replay_input :
        (input : ReplayInput) (report : ReplayReport)
        → IsReplay input report
        → replay_input input ≡ ok report
    unfolding replay_input
    IsReplay-replay_input input report h =
        let again =
          subst (λ hs. Agree input.expected_roots 0 hs) h.heights (expected-Agree _ _ h.expected) in
        let checked =
          subst (λ hs. (input.expected_roots ≡ []) ⊎ (input.expected_roots ≡ hs)) h.heights
            h.expected in
        rw (Done-replay_blocks input.expected_roots 0 h.run again, expected_checked _ _ checked)
          (λ i. ok (record {
            schema = sym h.schema i;
            protocol_id = sym h.protocol_id i;
            heights = sym h.heights i;
            event_counts = sym h.event_counts i;
            final_state = report.final_state;
          }))

    -- A replay is accepted, with this report, exactly if its blocks apply one after the other to the
    -- new state of the binding, with journal entries whose roots and numbers of events are those of
    -- the report, and the expected roots, where the input has any, are those roots.
    pub replay_input_iff :
        (input : ReplayInput) (report : ReplayReport)
        → (replay_input input ≡ ok report) ↔ IsReplay input report
    replay_input_iff input report =
        (replay_input-IsReplay input report, IsReplay-replay_input input report)
