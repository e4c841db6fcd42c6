-- ===== src/Profile/Server/Crowd.antt =====
-- Requests that come to the metric server at once.
use flotta_device_worker_ng.Base.{
  ℕ, ◌+◌, ◌≤◌, ◌≡◌, refl, subst, sym, ap, ◌∙◌, List, [], ◌∷◌, ◌++◌, Option, some, map, append-nil,
  append_assoc, Bytes, length, length-append, arith,
}
use flotta_device_worker_ng.Profile.Server.{
  Server, new_server, counted, on_request, on_body, Step, Run,
}

module _ {A : Type 0} (unmarshal : Bytes → Option A) (encode : A → Bytes) where
  abbrev body_of : A → Option Bytes
  body_of v = some (encode v)

  run_trans :
      {k : ℕ} {s t u : Server unmarshal}
      → Run unmarshal k s t
      → Run unmarshal k t u
      → Run unmarshal k s u
  run_trans (Run.stop s) q = q
  run_trans (Run.next s l r) q = Run.next s l (run_trans r q)

  -- Behind a server that handles the requests of some metrics.
  record Handles (vs : List A) (s : Server unmarshal) : Type 0 where
    pub none_counted : s.count ≡ 0
    pub handled : s.handling ≡ map body_of vs
    pub none_sending : s.sending ≡ []

  length-bodies : (vs : List A) → length (map body_of vs) ≡ length vs
  length-bodies [] = refl
  length-bodies (v ∷ vs) = omega (arith, length-bodies vs)

  bodies-snoc :
      (us : List A) (v : A) → map body_of us ++ body_of v ∷ [] ≡ map body_of (us ++ v ∷ [])
  bodies-snoc [] v = refl
  bodies-snoc (u ∷ us) v = ap (λ bs. body_of u ∷ bs) (bodies-snoc us v)

  request-Handles :
      (us : List A) (v : A) (s : Server unmarshal)
      → Handles us s
      → Handles (us ++ v ∷ []) (on_request unmarshal (body_of v) s)
  unfolding on_request
  request-Handles us v s h =
      let passed : on_request unmarshal (body_of v) s
          ≡ record s { handling = s.handling ++ body_of v ∷ [] } =
        ground (arith, h.none_counted) in
      subst (Handles (us ++ v ∷ [])) (sym passed) (record {
        none_counted = h.none_counted;
        handled = ap (λ bs. bs ++ body_of v ∷ []) h.handled ∙ bodies-snoc us v;
        none_sending = h.none_sending;
      })

  -- The requests of metrics come, and each passes the test of the counter.
  arrivals :
      (k : ℕ) (vs us : List A) (s : Server unmarshal)
      → Handles us s
      → length (us ++ vs) ≤ k
      → (t : Server unmarshal) × Run unmarshal k s t × Handles (us ++ vs) t
  arrivals k [] us s h l = (s, Run.stop s, subst (λ ws. Handles ws s) (sym (append-nil us)) h)
  arrivals k (v ∷ vs) us s h l =
      let next = request-Handles us v s h in
      let same = append_assoc us (v ∷ []) vs in
      let few : length (on_request unmarshal (body_of v) s).handling ≤ k = omega (
        arith,
        l,
        ap length next.handled,
        length-bodies (us ++ v ∷ []),
        length-append us (v ∷ vs),
        length-append us (v ∷ []),
      ) in
      let (t, r, c) =
        arrivals k vs (us ++ v ∷ []) (on_request unmarshal (body_of v) s) next
          (omega (arith, l, ap length same)) in
      (t, Run.next (Step.request (body_of v) s) few r, subst (λ ws. Handles ws t) same c)

  -- The requests are handled.
  handle_all :
      (k : ℕ) (vs : List A) (s : Server unmarshal)
      → ((v : A) → unmarshal (encode v) ≡ some v)
      → s.handling ≡ map body_of vs
      → length vs ≤ k
      → (t : Server unmarshal) × Run unmarshal k s t
        × (t.count ≡ s.count + length vs)
        × (t.sending ≡ s.sending ++ vs)
  unfolding on_body
  handle_all k [] s d e l = (s, Run.stop s, omega arith, sym (append-nil s.sending))
  handle_all k (v ∷ vs) s d e l =
      let left = record s { handling = map body_of vs } in
      let s' = counted unmarshal (some v) left in
      let step =
        subst (Step unmarshal s) (ap (λ o. counted unmarshal o left) (d v))
          (Step.handle [] (map body_of vs) (body_of v) s e) in
      let (t, r, n, m) = handle_all k vs s' d refl (omega (arith, l)) in
      (
        t,
        Run.next step (omega (arith, l, length-bodies vs)) r,
        omega (arith, n),
        m ∙ append_assoc s.sending (v ∷ []) vs,
      )

  -- Where the requests of any number of metrics, each of which can be read, come at once, the counter
  -- goes as far as their number, whatever the bound of 10, with all of them still to be sent.
  pub crowd_counts :
      (vs : List A)
      → ((v : A) → unmarshal (encode v) ≡ some v)
      → (t : Server unmarshal) × Run unmarshal (length vs) (new_server unmarshal) t
        × (t.count ≡ length vs)
        × (t.sending ≡ vs)
  crowd_counts vs d =
      let h : Handles [] (new_server unmarshal) = record {
        none_counted = refl;
        handled = refl;
        none_sending = refl;
      } in
      let (s, r, c) = arrivals (length vs) vs [] (new_server unmarshal) h (omega arith) in
      let (t, q, n, m) = handle_all (length vs) vs s d c.handled (omega arith) in
      (t, run_trans r q, omega (arith, n, c.none_counted), m ∙ ap (λ ws. ws ++ vs) c.none_sending)
