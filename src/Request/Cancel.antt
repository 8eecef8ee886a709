-- ===== src/Request/Cancel.antt =====
-- Cancellation of a request: nothing runs after it, and it settles when every owner has answered.
use token_sim.Prelude.{
  ℕ, ◌≡◌, ◌≢◌, refl, ap, ◌∙◌, ◌⊎◌, inl, inr, true, false, Option, none, some, List, [], ◌∷◌, ◌++◌,
  arith, ◌==◌, if◌then◌else◌, nat_eq, Bool-cases,
}
use token_sim.Request.{Request, is_done, finished_cancelled}
use token_sim.Request.Steps.{
  step, advance, request_cancel, acknowledge_cancel, settle_cancel, discard, acknowledged, succeed,
}

-- After a cancellation no step computes, samples or finishes anything.
pub cancelled_stands :
    (now latency batch wanted : ℕ) (r : Request)
    → is_done r ≡ false
    → let r' = request_cancel now r in
      (step now latency batch wanted r' ≡ (none, r'))
      × (advance now latency batch r' ≡ (none, r'))
      × (is_done r' ≡ false)
unfolding step advance request_cancel
cancelled_stands now latency batch wanted r h = (ground arith, ground arith, ground arith)

-- A call of `acknowledge_cancel`: its time, and the worker it names, if any.
pub record Answer : Type 0 where
  pub at_time : ℕ
  pub worker : Option ℕ

abbrev pub answers : List Answer → Request → Request
answers [] r = r
answers (a ∷ calls) r = answers calls (acknowledge_cancel a.at_time a.worker r)

abbrev pub Among : ℕ → List ℕ → Type 0
Among x [] = ⊥
Among x (y ∷ ys) = (y ≡ x) ⊎ Among x ys

-- One of the calls names the worker.
abbrev pub Answered : ℕ → List Answer → Type 0
Answered w [] = ⊥
Answered w (a ∷ calls) = (a.worker ≡ some w) ⊎ Answered w calls

abbrev pub AllAnswered : List ℕ → List Answer → Type 0
AllAnswered [] calls = Unit
AllAnswered (w ∷ ws) calls = Answered w calls × AllAnswered ws calls

discard-Among : (w x : ℕ) (xs : List ℕ) → Among x (discard w xs) → Among x xs × (w ≢ x)
discard-Among w x [] m = absurd m
discard-Among w x (y ∷ xs) m = elim (Bool-cases (y == w)) [
  | inl t ↦ let (n, d) = discard-Among w x xs (rw t at m) in (inr n, d)
  | inr f ↦ kept f (discard-Among w x xs) (rw f at m)
]
  where
    kept :
        (y == w) ≡ false
        → (Among x (discard w xs) → Among x xs × (w ≢ x))
        → Among x (y ∷ discard w xs)
        → Among x (y ∷ xs) × (w ≢ x)
    kept f ih (inl e) = (inl e, ground (arith, f, e))
    kept f ih (inr n) = let (k, d) = ih n in (inr k, d)

-- A worker that is still pending after a call was pending before it, and the call does not name it.
acknowledged-Among :
    (o : Option ℕ) (x : ℕ) (xs : List ℕ) → Among x (acknowledged o xs) → Among x xs × (o ≢ some x)
acknowledged-Among none x xs m = (m, λ e. cc e)
acknowledged-Among (some w) x xs m = let (n, d) = discard-Among w x xs m in (n, λ e. d (cc e))

-- The workers that were pending before a call are named by it or by the calls that name the rest.
acknowledged-AllAnswered :
    (a : Answer) (calls : List Answer) (xs : List ℕ)
    → AllAnswered (acknowledged a.worker xs) calls
    → AllAnswered xs (a ∷ calls)
acknowledged-AllAnswered a calls xs h =
    elim a.worker
        as (λ o.
          AllAnswered (acknowledged o xs) calls
          → AllAnswered xs (record { at_time = a.at_time; worker = o } ∷ calls)) [
            | none ↦ unnamed xs
            | some w ↦ named w xs
          ]
      h
  where
    unnamed :
        (ys : List ℕ)
        → AllAnswered ys calls
        → AllAnswered ys (record { at_time = a.at_time; worker = none } ∷ calls)
    unnamed [] k = tt
    unnamed (y ∷ ys) k = (inr k.0, unnamed ys k.1)

    named :
        (w : ℕ) (ys : List ℕ)
        → AllAnswered (discard w ys) calls
        → AllAnswered ys (record { at_time = a.at_time; worker = some w } ∷ calls)
    named w [] k = tt
    named w (y ∷ ys) k = elim (Bool-cases (y == w)) [
      | inl t ↦ (inl (ground (arith, t)), named w ys (rw t at k))
      | inr f ↦ let (n, rest) = rw f at k in (inr n, named w ys rest)
    ]

abbrev pub waiting_for : List ℕ → Request → Request
waiting_for ws r = record r { cancel_pending_worker_ids = ws }

abbrev pub settled : ℕ → Request → Request
settled now r = record r {
  cancelled_at = some now;
  admission = record r.admission { status = finished_cancelled };
  completion_event = succeed r.completion_event;
  cancellation_event = succeed r.cancellation_event;
}

-- A worker's answer takes it off the pending set. It settles the cancellation, and triggers both
-- events, exactly where it leaves none pending.
acknowledge_cancel_lem :
    (a : Answer) (r : Request)
    → r.cancel_requested ≡ true
    → r.cancelled_at ≡ none
    → let left = acknowledged a.worker r.cancel_pending_worker_ids in
      acknowledge_cancel a.at_time a.worker r ≡ (elim left as (λ _. Request) [
        | [] ↦ settled a.at_time (waiting_for [] r)
        | x ∷ xs ↦ waiting_for (x ∷ xs) r
      ])
unfolding acknowledge_cancel settle_cancel
acknowledge_cancel_lem a r c e =
    let left = acknowledged a.worker r.cancel_pending_worker_ids in
    (λ i. if c i then settle_cancel a.at_time left (e i) (waiting_for left r) else r) ∙ by_left left
  where
    by_left :
        (ws : List ℕ)
        → settle_cancel a.at_time ws none (waiting_for ws r) ≡ (elim ws as (λ _. Request) [
          | [] ↦ settled a.at_time (waiting_for [] r)
          | x ∷ xs ↦ waiting_for (x ∷ xs) r
        ])
    by_left [] = refl
    by_left (x ∷ xs) = refl

settled_stays :
    (t : ℕ) (calls : List Answer) (r : Request)
    → r.cancel_requested ≡ true
    → r.cancelled_at ≡ some t
    → r.admission.status ≡ finished_cancelled
    → ((answers calls r).cancelled_at ≡ some t)
      × ((answers calls r).admission.status ≡ finished_cancelled)
unfolding acknowledge_cancel settle_cancel
settled_stays t [] r c e s = (e, s)
settled_stays t (a ∷ calls) r c e s =
    settled_stays t calls (acknowledge_cancel a.at_time a.worker r) (ground arith) (ground arith)
      (ground arith)

-- What calls of `acknowledge_cancel` do to a cancellation that waits for the workers of the request.
pub data Settles (calls : List Answer) (r : Request) : Type 0 where
  settled_at :
      (before : List Answer) (a : Answer) (after : List Answer)
      → calls ≡ before ++ a ∷ after
      → AllAnswered r.cancel_pending_worker_ids (before ++ a ∷ [])
      → (answers before r).cancelled_at ≡ none
      → (answers calls r).cancelled_at ≡ some a.at_time
      → (answers calls r).admission.status ≡ finished_cancelled
      → Settles calls r
  waits :
      (answers calls r).cancelled_at ≡ none
      → (calls ≡ []) ⊎ ((w : ℕ) × Among w r.cancel_pending_worker_ids × (Answered w calls → ⊥))
      → Settles calls r

-- The calls after one that leaves workers pending.
later-Settles :
    (a : Answer) (calls : List Answer) (r : Request) (x : ℕ) (xs : List ℕ)
    → acknowledged a.worker r.cancel_pending_worker_ids ≡ x ∷ xs
    → acknowledge_cancel a.at_time a.worker r ≡ waiting_for (x ∷ xs) r
    → Settles calls (waiting_for (x ∷ xs) r)
    → Settles (a ∷ calls) r
later-Settles a calls r x xs left acked
      (settled_at before b after cut all open_before at_b status) =
    settled_at (a ∷ before) b after (ap (◌∷◌ a) cut)
      (acknowledged-AllAnswered a (before ++ b ∷ []) r.cancel_pending_worker_ids (rw left all))
      (rw (answers, acked) open_before) (rw (answers, acked) at_b) (rw (answers, acked) status)
later-Settles a calls r x xs left acked (waits still (inl nothing)) =
    let (m, unnamed) =
      acknowledged-Among a.worker x r.cancel_pending_worker_ids (rw left (inl refl)) in
    waits (rw (answers, acked) still)
      (inr (x, m, λ n. elim n [ inl e ↦ unnamed e | inr k ↦ rw nothing at k ]))
later-Settles a calls r x xs left acked (waits still (inr (w, m, unanswered))) =
    let (k, unnamed) = acknowledged-Among a.worker w r.cancel_pending_worker_ids (rw left m) in
    waits (rw (answers, acked) still)
      (inr (w, k, λ n. elim n [ inl e ↦ unnamed e | inr l ↦ unanswered l ]))

-- A cancellation that is requested and not settled, under any calls of `acknowledge_cancel` at any times.
-- It is settled, with the status that says so, at the time of the first call after which every pending
-- worker has been named, in whatever order and however often. It stays unsettled where no call is made, or
-- where a pending worker is named by none. A request that no worker holds is settled by the first
-- call.
pub answers_settle :
    (calls : List Answer) (r : Request)
    → r.cancel_requested ≡ true
    → r.cancelled_at ≡ none
    → Settles calls r
answers_settle [] r c e = waits e (inl refl)
answers_settle (a ∷ calls) r c e =
    by_left (acknowledged a.worker r.cancel_pending_worker_ids) refl
      (acknowledge_cancel_lem a r c e) (λ ws. answers_settle calls (waiting_for ws r) c e)
  where
    by_left :
        (left : List ℕ)
        → acknowledged a.worker r.cancel_pending_worker_ids ≡ left
        → acknowledge_cancel a.at_time a.worker r ≡ (elim left as (λ _. Request) [
          | [] ↦ settled a.at_time (waiting_for [] r)
          | x ∷ xs ↦ waiting_for (x ∷ xs) r
        ])
        → ((ws : List ℕ) → Settles calls (waiting_for ws r))
        → Settles (a ∷ calls) r
    by_left [] left acked ih =
        let (at_a, status) =
          settled_stays a.at_time calls (settled a.at_time (waiting_for [] r)) c refl refl in
        settled_at [] a calls refl
          (acknowledged-AllAnswered a [] r.cancel_pending_worker_ids (rw left tt)) e
          (rw (answers, acked) at_a) (rw (answers, acked) status)
    by_left (x ∷ xs) left acked ih = later-Settles a calls r x xs left acked (ih (x ∷ xs))
