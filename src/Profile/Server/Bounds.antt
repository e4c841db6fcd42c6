-- ===== src/Profile/Server/Bounds.antt =====
-- What the counter of the metric server counts, and how far it goes.
use flotta_device_worker_ng.Base.{
  ℕ, ◌+◌, ◌≤◌, ◌≡◌, refl, Bool, true, false, ap, List, [], ◌∷◌, ◌++◌, Option, none, some,
  if◌then◌else◌, Bytes, leb, length, length-append, arith,
}
use flotta_device_worker_ng.Profile.Server.{
  Server, new_server, counted, on_request, on_body, max_count, Step, Run, answer, ok,
}

length-middle :
    {A : Type 0} (xs ys : List A) (x : A) → length (xs ++ x ∷ ys) ≡ length (xs ++ ys) + 1
length-middle xs ys x = omega (arith, length-append xs (x ∷ ys), length-append xs ys)

module _ {A : Type 0} (unmarshal : Bytes → Option A) where
  -- The counter counts the goroutines that have not counted down.
  record Counts (k : ℕ) (s : Server unmarshal) : Type 0 where
    pub exact : s.count ≡ length s.sending + s.sent
    pub most : s.count + length s.handling ≤ 9 + k

  counted-Counts :
      (k : ℕ) (o : Option A) (s : Server unmarshal)
      → s.count ≡ length s.sending + s.sent
      → s.count + length s.handling + 1 ≤ 9 + k
      → Counts k (counted unmarshal o s)
  counted-Counts k none s e m = record { exact = e; most = omega (arith, m) }
  counted-Counts k (some v) s e m = record {
    exact = omega (arith, e, length-append s.sending (v ∷ []));
    most = omega (arith, m);
  }

  body-Counts :
      (k : ℕ) (body : Option Bytes) (s : Server unmarshal)
      → s.count ≡ length s.sending + s.sent
      → s.count + length s.handling + 1 ≤ 9 + k
      → Counts k (on_body unmarshal body s)
  unfolding on_body
  body-Counts k none s e m = record { exact = e; most = omega (arith, m) }
  body-Counts k (some d) s e m = counted-Counts k (unmarshal d) s e m

  request-Counts :
      (k : ℕ) (body : Option Bytes) (s : Server unmarshal)
      → Counts k s
      → length (on_request unmarshal body s).handling ≤ k
      → Counts k (on_request unmarshal body s)
  unfolding on_request
  request-Counts k body s c l = branch (leb max_count s.count) refl l
    where
      branch :
          (b : Bool)
          → leb max_count s.count ≡ b
          → length
              (if b
                then answer unmarshal ok s
                else record s { handling = s.handling ++ body ∷ [] }).handling
            ≤ k
          → Counts k
              (if b then answer unmarshal ok s else record s { handling = s.handling ++ body ∷ [] })
      branch true e l = record { exact = c.exact; most = c.most }
      branch false e l = record { exact = c.exact; most = ground (arith, e, l) }

  Step-Counts :
      (k : ℕ) {s t : Server unmarshal}
      → Step unmarshal s t
      → length t.handling ≤ k
      → Counts k s
      → Counts k t
  Step-Counts k (Step.request body s) l c = request-Counts k body s c l
  Step-Counts k (Step.handle xs ys body s e) l c =
      body-Counts k body (record s { handling = xs ++ ys }) c.exact
        (omega (arith, c.most, ap length e, length-middle xs ys body))
  Step-Counts k (Step.send xs ys v s e o) l c = record {
    exact = omega (arith, c.exact, ap length e, length-middle xs ys v);
    most = c.most;
  }
  Step-Counts k (Step.count_down n s e) l c = record {
    exact = omega (arith, c.exact, e);
    most = omega (arith, c.most);
  }
  Step-Counts k (Step.receive v s e) l c = record { exact = c.exact; most = c.most }

  Run-Counts : (k : ℕ) {s t : Server unmarshal} → Run unmarshal k s t → Counts k s → Counts k t
  Run-Counts k (Run.stop s) c = c
  Run-Counts k (Run.next s l r) c = Run-Counts k r (Step-Counts k s l c)

  -- The counter of the server counts the metrics that wait to be sent and the goroutines that have
  -- sent theirs but not counted down; where at most `k` requests are handled at a time, it is at most
  -- 9 + `k`, so that the bound of 10 is kept where requests are handled one by one.
  pub count_bounds :
      (k : ℕ) {s : Server unmarshal}
      → Run unmarshal k (new_server unmarshal) s
      → (s.count ≡ length s.sending + s.sent) × (s.count ≤ 9 + k)
  count_bounds k r =
      let c = Run-Counts k r (record { exact = refl; most = omega arith }) in
      (c.exact, omega (arith, c.most))
