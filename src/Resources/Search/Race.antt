-- ===== src/Resources/Search/Race.antt =====
-- What a search answers whose walk comes to one cgroup.
use flotta_device_worker_ng.Base.{
  ◌+◌, ◌≡◌, refl, subst, Bool, true, false, ◌&&◌, not, List, [], ◌∷◌, Option, none, some, Bytes,
  arith, Bool-cases, inl, inr,
}
use flotta_device_worker_ng.Resources.Search.{
  Entry, Search, start, taken, given_up, hit, given, must_wait, walk_on, on_walk, Step, Run,
}
use flotta_device_worker_ng.Resources.Search.Found.{Source, sent-Source}
use flotta_device_worker_ng.Resources.Search.Few.{hits, occupied}

abbrev pub no_failure : List Entry → Bool
no_failure [] = true
no_failure (e ∷ es) = not e.failed && no_failure es

-- A walk that goes on, and one that has ended.
abbrev at : List Entry → Option Bytes → Search
at es o = record {
  rest = es;
  output = o;
  err_ch = none;
  ended = false;
  cancelled = false;
  answer = none;
}

abbrev over : Option Bytes → Search
over o = record {
  rest = [];
  output = o;
  err_ch = some false;
  ended = true;
  cancelled = false;
  answer = none;
}

module _ (matches : Bytes → Bool) (full_path : Bool) where
  free :
      (x : Entry) (es : List Entry) (o : Option Bytes)
      → (hit matches x ≡ true → occupied o ≡ 0)
      → must_wait matches full_path (x ∷ es) o ≡ false
  free x es none e = refl
  free x es (some p) e = elim (Bool-cases (hit matches x)) [
    | inl h ↦ absurd (ground (arith, e h))
    | inr h ↦ ground (arith, h)
  ]

  -- A call of the function that has no error and does not wait.
  walk_to :
      (x : Entry) (es : List Entry) (o : Option Bytes) (t : Search)
      → (hit matches x ≡ true → occupied o ≡ 0)
      → walk_on matches full_path (x ∷ es) (at (x ∷ es) o) ≡ t
      → Step matches full_path (at (x ∷ es) o) t
  unfolding on_walk
  walk_to x es o t w e =
      subst (Step matches full_path (at (x ∷ es) o)) e
        (Step.walk (at (x ∷ es) o) refl (free x es o w))

  -- The walk to its end, before the select takes anything.
  walk_over :
      (es : List Entry) (o : Option Bytes)
      → no_failure es ≡ true
      → occupied o + hits matches es ≡ 1
      → (p : Bytes) × Run matches full_path (at es o) (over (some p))
  unfolding on_walk
  walk_over [] none n e = absurd (ground (arith, e))
  walk_over [] (some p) n e =
      (p, Run.next (Step.walk (at [] (some p)) refl refl) (Run.stop (over (some p))))
  walk_over (x ∷ es) o n e =
      let n' : no_failure es ≡ true = ground (arith, n) in
      let f : x.failed ≡ false = ground (arith, n) in
      elim (Bool-cases (hit matches x)) [
        | inl h ↦
            let (p, r) =
              walk_over es (some (given matches full_path x)) n' (ground (arith, e, f, h)) in
            (
              p,
              Run.next
                  (walk_to x es o (at es (some (given matches full_path x)))
                    (λ _. ground (arith, e, f, h)) (ground (arith, f, h)))
                  r,
            )
        | inr h ↦
            let (p, r) = walk_over es o n' (ground (arith, e, f, h)) in
            (p, Run.next (walk_to x es o (at es o) (λ g. cc (h, g)) (ground (arith, f, h))) r)
      ]

  -- A search that walks, without an error, over exactly one directory that matches, may answer with
  -- its path (or its name) or with the error that there is no cgroup, from one and the same state.
  pub search_races :
      (entries : List Entry)
      → no_failure entries ≡ true
      → hits matches entries ≡ 1
      → (s : Search) × (p : Bytes) × Source matches full_path entries p
        × Run matches full_path (start entries) s
        × Step matches full_path s (taken p s)
        × Step matches full_path s (given_up s)
        × ((taken p s).answer ≡ some (some p))
        × ((given_up s).answer ≡ some none)
  unfolding start
  search_races entries n e =
      let (p, r) = walk_over entries none n (omega (arith, e)) in
      (
        over (some p),
        p,
        sent-Source matches full_path entries p r refl,
        r,
        Step.take p (over (some p)) refl refl,
        Step.fail false (over (some p)) refl refl,
        refl,
        refl,
      )
