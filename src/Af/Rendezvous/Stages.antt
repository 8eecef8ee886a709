-- ===== src/Af/Rendezvous/Stages.antt =====
-- Runs of `finish_stage` (TokenSim/af/execution/rendezvous.py) and who has finished which stage of a round.
use token_sim.Prelude.{
  ℕ, ◌+◌, ◌<◌, ◌≡◌, refl, sym, ap, ◌∙◌, subst, true, false, Option, none, some, List, [], ◌∷◌, ◌==◌,
  ==_refl, if◌then◌else◌, nat_eq, length, arith, Bool-cases, inl, inr,
}
use token_sim.Prelude.Dict.{get, get-put_same, get-put_other}
use token_sim.Errors.{Error, Outcome, ok, raise}
use token_sim.Af.Rendezvous.{
  AfBlock, Transaction, NativeRendezvous, contains, ordinal, advance_stage, finish_stage,
}

-- What has been finished, the latest first: an ordinal and the peer.
abbrev pub Log : Type 0
Log = List (ℕ × ℕ)

-- The peers that have finished a stage.
unfoldable pub finishers : ℕ → Log → List ℕ
finishers o [] = []
finishers o ((p, rank) ∷ log) = if p == o then rank ∷ finishers o log else finishers o log

-- No peer occurs twice.
abbrev pub Once : List ℕ → Type 0
Once [] = Unit
Once (n ∷ ns) = (contains n ns ≡ false) × Once ns

module _ (round : ℕ) where
  -- A call adds an entry where it returns and its block belongs to the round.
  abbrev pub finish_entry : AfBlock → ℕ → Option (ℕ × ℕ) → Option Transaction → Log → Log
  finish_entry b layer none t log = log
  finish_entry b layer (some (r, owner)) none log = log
  finish_entry b layer (some (r, owner)) (some t) log =
      if r == round then (ordinal layer b t, b.a_dp_rank) ∷ log else log

  abbrev pub log_after :
      AfBlock → ℕ → Option (ℕ × ℕ) → Option Transaction → Log → Outcome (Unit {0}) → Log
  log_after b layer i t log (raise e) = log
  log_after b layer i t log (ok u) = finish_entry b layer i t log

  unfoldable pub logged : AfBlock → ℕ → NativeRendezvous → Log → Log
  unfolding finish_stage
  logged b layer s log =
      log_after b layer (get b.iteration_id s.iterations) (get round s.rounds) log
        (finish_stage b layer s).0

  -- Calls of `finish_stage`, of any blocks and whatever they return or raise, with what they finish of the
  -- round.
  pub data Finishes (s : NativeRendezvous) : Log → NativeRendezvous → Type 0 where
    begin : Finishes s [] s
    calls :
        {log : Log} {t : NativeRendezvous} (b : AfBlock) (layer : ℕ)
        → Finishes s log t
        → Finishes s (logged b layer t log) (finish_stage b layer t).1

  -- Every peer has finished each stage before the current one, once, and none a later one.
  pub record InOrder (peers : ℕ) (log : Log) (t : Transaction) : Type 0 where
    pub past : (o : ℕ) → o < t.stage → (length (finishers o log) ≡ peers) × Once (finishers o log)
    pub now : finishers t.stage log ≡ t.stage_peers
    pub once : Once t.stage_peers
    pub partial : length t.stage_peers < peers
    pub later : (o : ℕ) → t.stage < o → finishers o log ≡ []

  finishers-same :
      (o p rank : ℕ) (log : Log)
      → (p == o) ≡ true
      → finishers o ((p, rank) ∷ log) ≡ rank ∷ finishers o log
  unfolding finishers
  finishers-same o p rank log h = rw h refl

  finishers-other :
      (o p rank : ℕ) (log : Log)
      → (p == o) ≡ false
      → finishers o ((p, rank) ∷ log) ≡ finishers o log
  unfolding finishers
  finishers-other o p rank log h = rw h refl

  -- The current stage gets one more peer, and is not over.
  joined :
      (peers rank : ℕ) (log : Log) (t : Transaction)
      → InOrder peers log t
      → contains rank t.stage_peers ≡ false
      → length (rank ∷ t.stage_peers) < peers
      → InOrder peers ((t.stage, rank) ∷ log) (record t { stage_peers = rank ∷ t.stage_peers })
  joined peers rank log t i new more = record {
    past = λ o before.
        let other = finishers-other o t.stage rank log (ground (arith, before)) in
        subst (λ (xs : List ℕ). (length xs ≡ peers) × Once xs) (sym other) (i.past o before);
    now =
        finishers-same t.stage t.stage rank log (==_refl t.stage)
        ∙ ap (λ (xs : List ℕ). rank ∷ xs) i.now;
    once = (new, i.once);
    partial = more;
    later = λ o after. finishers-other o t.stage rank log (ground (arith, after)) ∙ i.later o after;
  }

  -- The last peer ends the stage.
  ended :
      (peers rank : ℕ) (log : Log) (t : Transaction)
      → InOrder peers log t
      → contains rank t.stage_peers ≡ false
      → length (rank ∷ t.stage_peers) ≡ peers
      → InOrder peers ((t.stage, rank) ∷ log) (record t { stage = t.stage + 1; stage_peers = [] })
  ended peers rank log t i new all = record {
    past = λ o before. elim (Bool-cases (t.stage == o)) [
      | inl same ↦
          let here : finishers o ((t.stage, rank) ∷ log) ≡ rank ∷ t.stage_peers =
            finishers-same o t.stage rank log same
            ∙ ap (λ (x : ℕ). rank ∷ finishers x log) (sym ((nat_eq.eqb_iff t.stage o).0 same))
            ∙ ap (λ (xs : List ℕ). rank ∷ xs) i.now in
          subst (λ (xs : List ℕ). (length xs ≡ peers) × Once xs) (sym here) (all, (new, i.once))
      | inr other ↦
          subst (λ (xs : List ℕ). (length xs ≡ peers) × Once xs)
            (sym (finishers-other o t.stage rank log other))
            (i.past o (ground (arith, other, before)))
    ];
    now =
        finishers-other (t.stage + 1) t.stage rank log (ground arith)
        ∙ i.later (t.stage + 1) (omega arith);
    once = tt;
    partial = omega (arith, all);
    later = λ o after.
        finishers-other o t.stage rank log (ground (arith, after))
        ∙ i.later o (omega (arith, after));
  }

  -- The round is open, and in order.
  pub record Going (peers : ℕ) (log : Log) (s : NativeRendezvous) : Type 0 where
    pub on : s.enabled ≡ true
    pub same_peers : s.peers ≡ peers
    pub open_round : Transaction
    pub there : get round s.rounds ≡ some open_round
    pub in_order : InOrder peers log open_round

  -- A call that raises changes nothing.
  pub raised-Going :
      (peers : ℕ) (log : Log) (s : NativeRendezvous) (b : AfBlock) (layer : ℕ) (e : Error)
      → Going peers log s
      → finish_stage b layer s ≡ (raise e, s)
      → Going peers (logged b layer s log) (finish_stage b layer s).1
  unfolding logged
  raised-Going peers log s b layer e g h =
      let same_log : logged b layer s log ≡ log =
        ap (λ o. log_after b layer (get b.iteration_id s.iterations) (get round s.rounds) log o.0)
          h in
      subst (λ (l : Log). Going peers l (finish_stage b layer s).1) (sym same_log)
        (subst (λ o. Going peers log o.1) (sym h) g)

  -- A call on another round leaves this one.
  pub other-Going :
      (peers : ℕ) (log : Log) (s : NativeRendezvous) (r rank : ℕ) (t : Transaction)
      → Going peers log s
      → (r == round) ≡ false
      → Going peers log (advance_stage r rank t s)
  other-Going peers log s r rank t g other =
      elim (Bool-cases (length (rank ∷ t.stage_peers) == s.peers)) [
        | inl last ↦ rw last (record {
          on = g.on;
          same_peers = g.same_peers;
          open_round = g.open_round;
          there =
              get-put_other r round (record t { stage = t.stage + 1; stage_peers = [] }) s.rounds
                other
              ∙ g.there;
          in_order = g.in_order;
        })
        | inr more ↦ rw more (record {
          on = g.on;
          same_peers = g.same_peers;
          open_round = g.open_round;
          there =
              get-put_other r round (record t { stage_peers = rank ∷ t.stage_peers }) s.rounds other
              ∙ g.there;
          in_order = g.in_order;
        })
      ]

  -- A call on this round adds the peer to its stage.
  pub advanced-Going :
      (peers : ℕ) (log : Log) (s : NativeRendezvous) (rank : ℕ) (t : Transaction)
      → Going peers log s
      → get round s.rounds ≡ some t
      → contains rank t.stage_peers ≡ false
      → Going peers ((t.stage, rank) ∷ log) (advance_stage round rank t s)
  advanced-Going peers log s rank t g there new =
      let same : g.open_round ≡ t = ground (arith, g.there, there) in
      let i : InOrder peers log t = subst (InOrder peers log) same g.in_order in
      elim (Bool-cases (length (rank ∷ t.stage_peers) == s.peers)) [
        | inl last ↦
            let all : length (rank ∷ t.stage_peers) ≡ peers =
              (nat_eq.eqb_iff _ s.peers).0 last ∙ g.same_peers in
            rw last (record {
              on = g.on;
              same_peers = g.same_peers;
              open_round = record t { stage = t.stage + 1; stage_peers = [] };
              there = get-put_same round round _ s.rounds (==_refl round);
              in_order = ended peers rank log t i new all;
            })
        | inr more ↦
            let fewer : length (rank ∷ t.stage_peers) < peers =
              ground (arith, more, i.partial, g.same_peers) in
            rw more (record {
              on = g.on;
              same_peers = g.same_peers;
              open_round = record t { stage_peers = rank ∷ t.stage_peers };
              there = get-put_same round round _ s.rounds (==_refl round);
              in_order = joined peers rank log t i new fewer;
            })
      ]
