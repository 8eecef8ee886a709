-- ===== src/Af/Rendezvous/Order.antt =====
-- The order of stages over runs of `finish_stage` (TokenSim/af/execution/rendezvous.py).
use token_sim.Prelude.{
  ℕ, ◌<◌, ◌≡◌, refl, sym, ap, ◌∙◌, subst, Bool, true, false, not, ◌||◌, none, some, List, [], ◌∷◌,
  ◌==◌, if◌then◌else◌, nat_eq, length, arith, Bool-cases, Option-cases, inl, inr,
}
use token_sim.Prelude.Dict.{get}
use token_sim.Errors.{ok, raise, key_error, simulation_state_error}
use token_sim.Af.Rendezvous.{
  AfBlock, Transaction, NativeRendezvous, contains, ordinal, advance_stage, finish_in, finish_stage,
}
use token_sim.Af.Rendezvous.Stages.{
  Log, Once, finishers, finish_entry, log_after, logged, Finishes, begin, calls, InOrder, Going,
  raised-Going, other-Going, advanced-Going,
}

finish_failed :
    (b : AfBlock) (layer : ℕ) (s : NativeRendezvous)
    → s.enabled ≡ true
    → s.failed ≡ true
    → finish_stage b layer s ≡ (raise simulation_state_error, s)
unfolding finish_stage
finish_failed b layer s on failed = rw (on, failed, finish_stage) refl

finish_unknown :
    (b : AfBlock) (layer : ℕ) (s : NativeRendezvous)
    → s.enabled ≡ true
    → s.failed ≡ false
    → get b.iteration_id s.iterations ≡ none
    → finish_stage b layer s ≡ (raise key_error, s)
unfolding finish_stage
finish_unknown b layer s on sound unknown = simp (on, sound, unknown, finish_stage) refl

finish_known :
    (b : AfBlock) (layer : ℕ) (s : NativeRendezvous) (r owner : ℕ)
    → s.enabled ≡ true
    → s.failed ≡ false
    → get b.iteration_id s.iterations ≡ some (r, owner)
    → finish_stage b layer s ≡ finish_in r b layer s
unfolding finish_stage
finish_known b layer s r owner on sound known = simp (on, sound, known, finish_stage) refl

finish_closed :
    (b : AfBlock) (layer : ℕ) (s : NativeRendezvous) (r : ℕ)
    → get r s.rounds ≡ none
    → finish_in r b layer s ≡ (raise key_error, s)
finish_closed b layer s r closed = rw (closed, finish_in) refl

module _ (b : AfBlock) (layer : ℕ) (s : NativeRendezvous) (r : ℕ) (t : Transaction) where
  abbrev refuses : Bool
  refuses = not (ordinal layer b t == t.stage) || contains b.a_dp_rank t.stage_peers

  finish_refused :
      get r s.rounds ≡ some t
      → refuses ≡ true
      → finish_in r b layer s ≡ (raise simulation_state_error, s)
  finish_refused there bad = rw (there, finish_in, bad) refl

  finish_passed :
      get r s.rounds ≡ some t
      → refuses ≡ false
      → finish_in r b layer s ≡ (ok tt, advance_stage r b.a_dp_rank t s)
  finish_passed there good = rw (there, finish_in, good) refl

module _ (round peers : ℕ) where
  -- A call that passes, of this round or another.
  passed-Going :
      (log : Log) (s : NativeRendezvous) (b : AfBlock) (layer r owner : ℕ) (t : Transaction)
      → Going round peers log s
      → get b.iteration_id s.iterations ≡ some (r, owner)
      → get r s.rounds ≡ some t
      → refuses b layer s r t ≡ false
      → finish_stage b layer s ≡ (ok tt, advance_stage r b.a_dp_rank t s)
      → Going round peers (logged round b layer s log) (finish_stage b layer s).1
  unfolding logged
  passed-Going log s b layer r owner t g known there good h =
      let log_of : logged round b layer s log
          ≡ finish_entry round b layer (some (r, owner)) (get round s.rounds) log =
        ap
          (λ o.
            log_after round b layer (get b.iteration_id s.iterations) (get round s.rounds) log o.0)
          h
        ∙ ap (λ i. finish_entry round b layer i (get round s.rounds) log) known in
      let opened : finish_entry round b layer (some (r, owner)) (get round s.rounds) log
          ≡ finish_entry round b layer (some (r, owner)) (some g.open_round) log =
        ap (λ o. finish_entry round b layer (some (r, owner)) o log) g.there in
      let moved : (l : Log)
          → l ≡ logged round b layer s log
          → Going round peers l (advance_stage r b.a_dp_rank t s)
          → Going round peers (logged round b layer s log) (finish_stage b layer s).1 =
        λ l e k.
          subst (λ (x : Log). Going round peers x (finish_stage b layer s).1) e
            (subst (λ o. Going round peers l o.1) (sym h) k) in
      elim (Bool-cases (r == round)) [
        | inr other ↦
            moved log
              (sym (
                log_of
                ∙ opened
                ∙ ap
                    (λ (x : Bool).
                      if x then (ordinal layer b g.open_round, b.a_dp_rank) ∷ log else log)
                    other))
              (other-Going round peers log s r b.a_dp_rank t g other)
        | inl same ↦
            let here : r ≡ round = (nat_eq.eqb_iff r round).0 same in
            let found : get round s.rounds ≡ some t =
              ap (λ (x : ℕ). get x s.rounds) (sym here) ∙ there in
            let same_round : g.open_round ≡ t = ground (arith, g.there, found) in
            let turn : ordinal layer b t ≡ t.stage = ground (arith, good) in
            let at_stage : ordinal layer b g.open_round ≡ t.stage =
              ap (λ (x : Transaction). ordinal layer b x) same_round ∙ turn in
            moved ((t.stage, b.a_dp_rank) ∷ log)
              (sym (
                log_of
                ∙ opened
                ∙ ap
                    (λ (x : Bool).
                      if x then (ordinal layer b g.open_round, b.a_dp_rank) ∷ log else log)
                    same
                ∙ ap (λ (o : ℕ). (o, b.a_dp_rank) ∷ log) at_stage))
              (subst
                (λ (x : ℕ).
                  Going round peers ((t.stage, b.a_dp_rank) ∷ log)
                    (advance_stage x b.a_dp_rank t s))
                (sym here)
                (advanced-Going round peers log s b.a_dp_rank t g found (ground (arith, good))))
      ]

  call-Going :
      (log : Log) (s : NativeRendezvous) (b : AfBlock) (layer : ℕ)
      → Going round peers log s
      → Going round peers (logged round b layer s log) (finish_stage b layer s).1
  call-Going log s b layer g = elim (Bool-cases s.failed) [
    | inl failed ↦ raised-Going round peers log s b layer _ g (finish_failed b layer s g.on failed)
    | inr sound ↦ elim (Option-cases (get b.iteration_id s.iterations)) [
      | inl unknown ↦
          raised-Going round peers log s b layer _ g (finish_unknown b layer s g.on sound unknown)
      | inr ((r, owner), known) ↦
          let runs = finish_known b layer s r owner g.on sound known in
          elim (Option-cases (get r s.rounds)) [
            | inl closed ↦
                raised-Going round peers log s b layer _ g (runs ∙ finish_closed b layer s r closed)
            | inr (t, there) ↦ elim (Bool-cases (refuses b layer s r t)) [
              | inl bad ↦
                  raised-Going round peers log s b layer _ g
                    (runs ∙ finish_refused b layer s r t there bad)
              | inr good ↦
                  passed-Going log s b layer r owner t g known there good
                    (runs ∙ finish_passed b layer s r t there good)
            ]
          ]
    ]
  ]

  Finishes-Going :
      (s t : NativeRendezvous) (log : Log)
      → Going round peers [] s
      → Finishes round s log t
      → Going round peers log t
  Finishes-Going s _ _ g begin = g
  Finishes-Going s _ _ g (calls {log} {t} b layer runs) =
      call-Going log t b layer (Finishes-Going s t log g runs)

-- From a round at its first stage, that no peer has finished, any calls of `finish_stage` under the native
-- protocol, of any blocks of any rounds and whatever they return or raise, leave the round open and in order:
-- every stage before the current one was finished by as many peers as there are, none twice; the
-- current one by those recorded, who are fewer; and no later one by any.
pub Finishes-InOrder :
    (round : ℕ) (s t : NativeRendezvous) (log : Log) (opened : Transaction)
    → s.enabled ≡ true
    → 0 < s.peers
    → get round s.rounds ≡ some opened
    → opened.stage ≡ 0
    → opened.stage_peers ≡ []
    → Finishes round s log t
    → (now : Transaction) × (get round t.rounds ≡ some now) × InOrder round s.peers log now
unfolding finishers
Finishes-InOrder round s t log opened on some_peer there first no_peer runs =
    let fresh : InOrder round s.peers [] opened = record {
      past = λ o before. absurd (omega (arith, first, before));
      now = sym no_peer;
      once = subst Once (sym no_peer) tt;
      partial = omega (arith, ap (λ (xs : List ℕ). length xs) no_peer, some_peer);
      later = λ o after. refl;
    } in
    let g =
      Finishes-Going round s.peers s t log
        (record {
          on = on;
          same_peers = refl;
          open_round = opened;
          there = there;
          in_order = fresh;
        })
        runs in
    (g.open_round, g.there, g.in_order)
