-- ===== src/Routing/Fixed/Replay.antt =====
-- Runs of `select` and `reset_stats` of `FixedWorkerRouter` (TokenSim/placement/consistent_hash.py) beside the mapping
-- and the fallback's ring.
use token_sim.Prelude.{
  ℕ, ◌+◌, ◌≡◌, refl, sym, ap, ◌∙◌, subst, true, false, Option, none, some, List, [], ◌∷◌, String,
  ◌==◌, nat_eq, string_eq, arith, Bool-cases, Option-cases, inl, inr,
}
use token_sim.Prelude.Dict.{Dict, get, has}
use token_sim.Errors.{Outcome, ok, raise, and_then_ok}
use token_sim.Routing.Sessions.{
  Worker, Message, Router, bump, by_rank, no_session, new_router, select,
}
use token_sim.Routing.Affinity.{home, Reaches, begin, selects, refuses, resets, select-home}
use token_sim.Routing.Fixed.{
  FixedRouter, all_known, key_text, settle_missed, settle_mapped, new_fixed, select_fixed,
  reset_fixed,
}

module _ (label : ℕ → ℕ → List ℕ) (session_key : String → List ℕ) where
  -- The router after a run of calls.
  pub data Replays (start : FixedRouter) : FixedRouter → Type 0 where
    fresh : Replays start start
    selected :
        {f : FixedRouter} (conversation : Option String) (m : Message)
        → Replays start f
        → Replays start (select_fixed session_key conversation (f, m)).1.0
    reset : {f : FixedRouter} → Replays start f → Replays start (reset_fixed f)

  -- What no call changes, and that the fallback is one that its own calls reach.
  record Stays (start f : FixedRouter) : Type 0 where
    same_workers : f.workers ≡ start.workers
    same_mapping : f.mapping ≡ start.mapping
    calls : ℕ
    reached : Reaches label session_key start.fallback calls f.fallback

  missed :
      (conversation : Option String) (f : FixedRouter) (m : Message)
      → get (key_text conversation m.chat_id) f.mapping ≡ none
      → select_fixed session_key conversation (f, m)
        ≡ settle_missed
            (select session_key (f.fallback, m)).0
            (record f {
              missing_keys = bump (key_text conversation m.chat_id) f.missing_keys;
              fallback = (select session_key (f.fallback, m)).1.0;
            })
            (select session_key (f.fallback, m)).1.1
  unfolding select_fixed
  missed conversation f m absent = simp (absent, select_fixed) refl

  mapped :
      (conversation : Option String) (f : FixedRouter) (m : Message) (rank : ℕ)
      → get (key_text conversation m.chat_id) f.mapping ≡ some rank
      → select_fixed session_key conversation (f, m) ≡ settle_mapped rank (get rank f.workers) f m
  unfolding select_fixed
  mapped conversation f m rank there = simp (there, select_fixed) refl

  missed-Stays :
      (start f : FixedRouter) (answer : Outcome Worker) (m : Message)
      → Stays start f
      → Stays start (settle_missed answer f m).1.0
  missed-Stays start f (raise e) m s = s
  missed-Stays start f (ok w) m s = record {
    same_workers = s.same_workers;
    same_mapping = s.same_mapping;
    calls = s.calls;
    reached = s.reached;
  }

  mapped-Stays :
      (start f : FixedRouter) (rank : ℕ) (w : Option Worker) (m : Message)
      → Stays start f
      → Stays start (settle_mapped rank w f m).1.0
  mapped-Stays start f rank none m s = s
  mapped-Stays start f rank (some w) m s = record {
    same_workers = s.same_workers;
    same_mapping = s.same_mapping;
    calls = s.calls;
    reached = s.reached;
  }

  -- One call of the fallback.
  fallback_called :
      (start r : Router) (n : ℕ) (m : Message)
      → Reaches label session_key start n r
      → (k : ℕ) × Reaches label session_key start k (select session_key (r, m)).1.0
  fallback_called start r n m runs = elim (Bool-cases (no_session m.chat_id)) [
    | inl absent ↦ (n, refuses m absent runs)
    | inr present ↦ (n + 1, selects m present runs)
  ]

  selected-Stays :
      (start f : FixedRouter) (conversation : Option String) (m : Message)
      → Stays start f
      → Stays start (select_fixed session_key conversation (f, m)).1.0
  selected-Stays start f conversation m s =
      elim (Option-cases (get (key_text conversation m.chat_id) f.mapping)) [
        | inl absent ↦
            let (k, runs) = fallback_called start.fallback f.fallback s.calls m s.reached in
            subst (λ o. Stays start o.1.0) (sym (missed conversation f m absent))
              (missed-Stays start _ _ _ (record {
                same_workers = s.same_workers;
                same_mapping = s.same_mapping;
                calls = k;
                reached = runs;
              }))
        | inr (rank, there) ↦
            subst (λ o. Stays start o.1.0) (sym (mapped conversation f m rank there))
              (mapped-Stays start f rank (get rank f.workers) m s)
      ]

  Replays-Stays : (start f : FixedRouter) → Replays start f → Stays start f
  unfolding reset_fixed
  Replays-Stays start _ fresh = record {
    same_workers = refl;
    same_mapping = refl;
    calls = 0;
    reached = begin;
  }
  Replays-Stays start _ (selected {f} conversation m runs) =
      selected-Stays start f conversation m (Replays-Stays start f runs)
  Replays-Stays start _ (reset {f} runs) =
      let s = Replays-Stays start f runs in
      record {
        same_workers = s.same_workers;
        same_mapping = s.same_mapping;
        calls = 0;
        reached = resets s.reached;
      }

  all_known-get :
      (workers : Dict ℕ Worker) (mapping : Dict String ℕ) (key : String) (rank : ℕ)
      → all_known workers mapping ≡ true
      → get key mapping ≡ some rank
      → (w : Worker) × (get rank workers ≡ some w)
  unfolding get
  all_known-get workers [] key rank known got = absurd (ground (arith, got))
  all_known-get workers ((k, r) ∷ rest) key rank known got =
      let here : has r workers ≡ true = ground (arith, known) in
      elim (Bool-cases (k == key)) [
        | inl same ↦
            let e : r ≡ rank = ground (arith, rw same at got) in
            elim (Option-cases (get rank workers)) [
              | inl absent ↦
                  absurd (ground (arith, absent, subst (λ (x : ℕ). has x workers ≡ true) e here))
              | inr found ↦ found
            ]
        | inr other ↦ all_known-get workers rest key rank (ground (arith, known)) (rw other at got)
      ]

  -- What the constructor makes of what it accepts.
  Made : List Worker → Dict String ℕ → FixedRouter → Type 0
  Made workers mapping start =
      (all_known (by_rank [] workers) mapping ≡ true)
      × (new_router label workers ≡ ok start.fallback)
      × (start.workers ≡ by_rank [] workers)
      × (start.mapping ≡ mapping)

  new_fixed-Made :
      (workers : List Worker) (mapping : Dict String ℕ) (start : FixedRouter)
      → new_fixed label workers mapping ≡ ok start
      → Made workers mapping start
  unfolding new_fixed Made
  new_fixed-Made workers mapping start h =
      elim (Bool-cases (all_known (by_rank [] workers) mapping)) [
        | inr unknown ↦ absurd (ground (arith, rw unknown at h))
        | inl known ↦
            let (fallback, built, rest) =
              and_then_ok (new_router label workers) _ start (rw known at h) in
            let same : fallback ≡ start.fallback = ground (arith, rest) in
            (
              known,
              built ∙ ap (λ (r : Router). ok r) same,
              ground (arith, rest),
              ground (arith, rest),
            )
      ]

  -- After any run of `select` and `reset_stats` on a new router, a conversation that the mapping has goes to the
  -- worker of its rank; a session that it lacks goes to the worker that its key's hash gives on the
  -- ring, whatever was routed before; neither call raises.
  pub select_fixed-replays :
      (workers : List Worker) (mapping : Dict String ℕ) (start f : FixedRouter)
      (conversation : Option String) (m : Message)
      → new_fixed label workers mapping ≡ ok start
      → Replays start f
      → let key = key_text conversation m.chat_id in
        let answer = (select_fixed session_key conversation (f, m)).0 in
        ((rank : ℕ)
          → get key mapping ≡ some rank
          → (w : Worker) × (get rank (by_rank [] workers) ≡ some w) × (answer ≡ ok w))
        × (get key mapping ≡ none
            → (s : String) → m.chat_id ≡ some s
            → (s == "") ≡ false
            → (w : Worker) × (home label session_key workers s ≡ some w) × (answer ≡ ok w))
  unfolding Made
  select_fixed-replays workers mapping start f conversation m built runs =
      let key = key_text conversation m.chat_id in
      let (known, fallback, its_workers, its_mapping) =
        new_fixed-Made workers mapping start built in
      let stays = Replays-Stays start f runs in
      let mapping_of : f.mapping ≡ mapping = stays.same_mapping ∙ its_mapping in
      let workers_of : f.workers ≡ by_rank [] workers = stays.same_workers ∙ its_workers in
      (
        (λ rank got.
            let (w, found) = all_known-get (by_rank [] workers) mapping key rank known got in
            let there : get key f.mapping ≡ some rank = ap (λ d. get key d) mapping_of ∙ got in
            let worker : get rank f.workers ≡ some w = ap (λ d. get rank d) workers_of ∙ found in
            (
              w,
              found,
              ap (λ o. o.0) (mapped conversation f m rank there)
                  ∙ ap (λ (x : Option Worker). (settle_mapped rank x f m).0) worker,
            )),
        λ lacking s named full.
            let absent : get key f.mapping ≡ none = ap (λ d. get key d) mapping_of ∙ lacking in
            let (w, at_home, answered, written, counted) =
              select-home label session_key workers start.fallback stays.calls f.fallback m s
                fallback stays.reached named full in
            (
              w,
              at_home,
              ap (λ o. o.0) (missed conversation f m absent)
                  ∙ settled (select session_key (f.fallback, m)).0 w _ _ answered,
            ),
      )
    where
      settled :
          (answer : Outcome Worker) (w : Worker) (g : FixedRouter) (m : Message)
          → answer ≡ ok w
          → (settle_missed answer g m).0 ≡ ok w
      settled answer w g m h = rw h refl
