-- ===== src/Routing/Visits.antt =====
-- One routed request of `ConsistentHashRouter.select` (TokenSim/placement/consistent_hash.py): what it returns, and
-- what the router keeps.
use token_sim.Prelude.{
  or_zero, ℕ, ◌+◌, ◌<◌, ◌≡◌, refl, sym, ap, ◌∙◌, subst, true, false, Option, none, some, List,
  String, ◌==◌, nat_eq, string_eq, length, arith, Bool-cases, Option-cases, inl, inr,
}
use token_sim.Prelude.Dict.{
  Dict, get, put, has, total, get-put_same, get-put_other, total-put_new, total-put_old,
}
use token_sim.Errors.{Outcome, ok}
use token_sim.Routing.Hash.{fbi_hash}
use token_sim.Routing.Ring.{rank_for_hash, rank_for_hash_lem}
use token_sim.Routing.Sessions.{Worker, Message, Router, bump, no_session, route, select}
use token_sim.Routing.Nodes.{HasWorkers}

module _ (session_key : String → List ℕ) where
  -- The counts, the fixed parts and the sessions of a router after `n` routed requests.
  pub record Kept (start : Router) (n : ℕ) (r : Router) : Type 0 where
    pub same_workers : r.workers ≡ start.workers
    pub same_ring : r.ring ≡ start.ring
    pub counted : total (λ c. c) r.request_counts ≡ n
    pub remembered :
        (s : String) (rank : ℕ)
        → get s r.sessions ≡ some rank
        → rank_for_hash start.ring (fbi_hash (session_key s)) ≡ some rank

  total-bump : (k : ℕ) (d : Dict ℕ ℕ) → total (λ c. c) (bump k d) ≡ total (λ c. c) d + 1
  total-bump k d = elim (Option-cases (get k d)) [
    | inl absent ↦
        ap (λ (o : Option ℕ). total (λ c. c) (put k (or_zero o + 1) d)) absent
        ∙ total-put_new (λ c. c) k 1 d absent
    | inr (n, there) ↦
        ap (λ (o : Option ℕ). total (λ c. c) (put k (or_zero o + 1) d)) there
        ∙ omega (arith, total-put_old (λ c. c) k (n + 1) n d there)
  ]

  -- One routed request: what `route` returns and leaves.
  abbrev pub Routed : Router → ℕ → ℕ → Worker → Outcome Worker × (Router × Message) → Type 0
  Routed start n rank w out =
      (out.0 ≡ ok w)
      × (out.1.1.dp_rank ≡ some rank)
      × (out.1.1.routing_worker_id ≡ some w.id)
      × Kept start n out.1.0

  route-Routed :
      (start : Router) (n rank : ℕ) (w : Worker) (r : Router) (m : Message)
      → get rank start.workers ≡ some w
      → Kept start n r
      → Routed start (n + 1) rank w (route rank (r, m))
  unfolding route
  route-Routed start n rank w r m there kept =
      let found : get rank r.workers ≡ some w = rw kept.same_workers there in
      rw (found, route)
        (
          refl,
          refl,
          refl,
          record {
            same_workers = kept.same_workers;
            same_ring = kept.same_ring;
            counted = total-bump rank r.request_counts ∙ ap (λ (x : ℕ). x + 1) kept.counted;
            remembered = kept.remembered;
          },
        )

  remember-Kept :
      (start : Router) (n : ℕ) (session : String) (rank : ℕ) (r : Router) (counts : Dict ℕ ℕ)
      → rank_for_hash start.ring (fbi_hash (session_key session)) ≡ some rank
      → Kept start n r
      → Kept start n (record r { sessions = put session rank r.sessions; session_counts = counts })
  remember-Kept start n session rank r counts hashed kept = record {
    same_workers = kept.same_workers;
    same_ring = kept.same_ring;
    counted = kept.counted;
    remembered = λ s q got. elim (Bool-cases (session == s)) [
      | inl t ↦
          let e : some rank ≡ some q = sym (get-put_same session s rank r.sessions t) ∙ got in
          subst (λ (x : String). rank_for_hash start.ring (fbi_hash (session_key x)) ≡ some q)
            ((string_eq.eqb_iff session s).0 t) (hashed ∙ e)
      | inr f ↦ kept.remembered s q (sym (get-put_other session s rank r.sessions f) ∙ got)
    ];
  }

  pub session_of :
      (m : Message)
      → no_session m.chat_id ≡ false
      → (s : String) × (m.chat_id ≡ some s) × ((s == "") ≡ false)
  session_of m h = elim (Option-cases m.chat_id) [
    | inl absent ↦ absurd (ground (arith, h, ap no_session absent))
    | inr (s, named) ↦ (s, named, sym (ap no_session named) ∙ h)
  ]

  pub refused-same :
      (r : Router) (m : Message) → no_session m.chat_id ≡ true → (select session_key (r, m)).1.0 ≡ r
  unfolding select
  refused-same r m h = elim (Option-cases m.chat_id) [
    | inl absent ↦ rw absent refl
    | inr (s, named) ↦
        let empty : (s == "") ≡ true = sym (ap no_session named) ∙ h in rw (named, empty) refl
  ]

  -- Where a session's key falls, with its worker.
  abbrev pub Home : Router → String → ℕ → Worker → Type 0
  Home start s rank w =
      (rank_for_hash start.ring (fbi_hash (session_key s)) ≡ some rank)
      × (get rank start.workers ≡ some w)

  pub Home-exists :
      (start : Router) (s : String)
      → 0 < length start.ring
      → HasWorkers start.workers start.ring
      → (rank : ℕ) × (w : Worker) × Home start s rank w
  Home-exists start s some_node all =
      let (p, rank, at_node, hashed, serves) =
        rank_for_hash_lem start.ring (fbi_hash (session_key s)) some_node in
      let there : has rank start.workers ≡ true = all p rank at_node in
      elim (Option-cases (get rank start.workers)) [
        | inl absent ↦ absurd (ground (arith, there, absent))
        | inr (w, found) ↦ (rank, w, (hashed, found))
      ]

  select-known :
      (r : Router) (m : Message) (s : String) (rank : ℕ)
      → m.chat_id ≡ some s
      → (s == "") ≡ false
      → get s r.sessions ≡ some rank
      → select session_key (r, m) ≡ route rank (r, m)
  unfolding select
  select-known r m s rank named full known = simp (named, full, known) refl

  select-new :
      (r : Router) (m : Message) (s : String) (rank : ℕ)
      → m.chat_id ≡ some s
      → (s == "") ≡ false
      → get s r.sessions ≡ none
      → rank_for_hash r.ring (fbi_hash (session_key s)) ≡ some rank
      → select session_key (r, m)
        ≡ route rank (
          record r {
            sessions = put s rank r.sessions;
            session_counts = bump rank r.session_counts;
          },
          m,
        )
  unfolding select
  select-new r m s rank named full unknown hashed = simp (named, full, unknown, hashed) refl

  pub select-Routed :
      (start : Router) (n rank : ℕ) (w : Worker) (r : Router) (m : Message) (s : String)
      → Home start s rank w
      → Kept start n r
      → m.chat_id ≡ some s
      → (s == "") ≡ false
      → Routed start (n + 1) rank w (select session_key (r, m))
  select-Routed start n rank w r m s (hashed, found) kept named full =
      elim (Option-cases (get s r.sessions)) [
        | inr (q, known) ↦
            let same : q ≡ rank = ground (arith, kept.remembered s q known, hashed) in
            subst (Routed start (n + 1) rank w)
              (sym (select-known r m s rank named full (known ∙ ap some same)))
              (route-Routed start n rank w r m found kept)
        | inl unknown ↦
            let here : rank_for_hash r.ring (fbi_hash (session_key s)) ≡ some rank =
              ap (λ (ring : Dict ℕ ℕ). rank_for_hash ring (fbi_hash (session_key s))) kept.same_ring
              ∙ hashed in
            subst (Routed start (n + 1) rank w)
              (sym (select-new r m s rank named full unknown here))
              (route-Routed start n rank w _ m found
                (remember-Kept start n s rank r (bump rank r.session_counts) hashed kept))
      ]
