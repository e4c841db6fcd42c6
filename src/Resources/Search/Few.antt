-- ===== src/Resources/Search/Few.antt =====
-- When a search finds nothing.
use flotta_device_worker_ng.Base.{
  ℕ, ◌+◌, ◌≤◌, ◌≡◌, refl, ap, Bool, true, false, List, [], ◌∷◌, Option, none, some, if◌then◌else◌,
  Bytes, arith,
}
use flotta_device_worker_ng.Resources.Search
use flotta_device_worker_ng.Resources.Search.{
  Entry, Search, start, taken, given_up, on_cancel, hit, given, must_wait, ended_with, walk_on,
  Step, Run,
}

abbrev pub occupied : Option Bytes → ℕ
occupied none = 0
occupied (some p) = 1

module _ (matches : Bytes → Bool) where
  -- The directories that match before the first call with an error.
  abbrev pub hits : List Entry → ℕ
  hits [] = 0
  hits (e ∷ es) = if e.failed then 0 else if hit matches e then 1 + hits es else hits es

  abbrev left : Search → ℕ
  left s = if s.ended then 0 else hits s.rest

  -- Until the select has taken something, each match is counted.
  record Counts (total : ℕ) (s : Search) : Type 0 where
    pub open_ended : s.answer ≡ none → s.cancelled ≡ false
    pub counted : s.answer ≡ none → total ≡ occupied s.output + left s
    pub few : s.answer ≡ some none → total ≤ 1
    pub sent : (b : Bool) → s.err_ch ≡ some b → s.ended ≡ true

  occupied-few : (o : Option Bytes) → occupied o ≤ 1
  occupied-few o = ground arith

  module _ (full_path : Bool) (total : ℕ) where
    -- A call of the function, by whether it has an error, its directory matches, and the context is done.
    branch-Counts :
        (f h k : Bool) (x : Entry) (es : List Entry) (s : Search)
        → s.ended ≡ false
        → Counts total s
        → (s.answer ≡ none
            → total ≡ occupied s.output + (if f then 0 else if h then 1 + hits es else hits es))
        → (f ≡ false → h ≡ true → occupied s.output ≡ 0)
        → (s.answer ≡ none → k ≡ false)
        → Counts total (
            if f
            then ended_with true s
            else if h
            then record s { rest = es; output = some (given matches full_path x) }
            else if k
            then ended_with true s
            else record s { rest = es })
    branch-Counts true h k x es s e c b o q = record {
      open_ended = c.open_ended;
      counted = b;
      few = c.few;
      sent = λ d g. refl;
    }
    branch-Counts false true k x es s e c b o q = record {
      open_ended = c.open_ended;
      counted = λ n. ground (arith, e, b n, o refl refl);
      few = c.few;
      sent = c.sent;
    }
    branch-Counts false false true x es s e c b o q = record {
      open_ended = c.open_ended;
      counted = λ n. cc (q n);
      few = c.few;
      sent = λ d g. refl;
    }
    branch-Counts false false false x es s e c b o q = record {
      open_ended = c.open_ended;
      counted = λ n. ground (arith, e, b n);
      few = c.few;
      sent = c.sent;
    }

    waits :
        (x : Entry) (es : List Entry) (o : Option Bytes)
        → must_wait matches full_path (x ∷ es) o ≡ false
        → x.failed ≡ false
        → hit matches x ≡ true
        → occupied o ≡ 0
    waits x es none w f h = refl
    waits x es (some p) w f h = ground (arith, w, f, h)

    walk-Counts :
        (es : List Entry) (s : Search)
        → s.rest ≡ es
        → s.ended ≡ false
        → must_wait matches full_path es s.output ≡ false
        → Counts total s
        → Counts total (walk_on matches full_path es s)
    walk-Counts [] s r e w c = record {
      open_ended = c.open_ended;
      counted = λ n. ground (arith, c.counted n, e, r);
      few = c.few;
      sent = λ b f. refl;
    }
    walk-Counts (x ∷ es) s r e w c =
        branch-Counts x.failed (hit matches x) s.cancelled x es s e c
          (λ n. ground (arith, c.counted n, e, r)) (waits x es s.output w) c.open_ended

    Step-Counts : {s t : Search} → Step matches full_path s t → Counts total s → Counts total t
    unfolding Search.on_walk
    Step-Counts (Step.walk s e w) c = walk-Counts s.rest s refl e w c
    Step-Counts (Step.take p s o a) c = record {
      open_ended = λ e. cc e;
      counted = λ e. cc e;
      few = λ e. cc e;
      sent = c.sent;
    }
    Step-Counts (Step.fail b s f a) c = record {
      open_ended = λ e. cc e;
      counted = λ e. cc e;
      few = λ e. omega (
        arith,
        c.counted a,
        occupied-few s.output,
        ap (λ (d : Bool). if d then 0 else hits s.rest) (c.sent b f),
      );
      sent = λ d e. cc e;
    }
    Step-Counts (Step.cancel a s e) c = record {
      open_ended = λ n. cc (e, n);
      counted = λ n. c.counted n;
      few = c.few;
      sent = c.sent;
    }

    Run-Counts : {s t : Search} → Run matches full_path s t → Counts total s → Counts total t
    Run-Counts (Run.stop s) c = c
    Run-Counts (Run.next s r) c = Run-Counts r (Step-Counts s c)

  -- A search that answers that there is no cgroup has walked over at most one directory that matches,
  -- up to the first call with an error.
  pub lost-few :
      (full_path : Bool) (entries : List Entry) {s : Search}
      → Run matches full_path (start entries) s
      → s.answer ≡ some none
      → hits entries ≤ 1
  unfolding start
  lost-few full_path entries r a =
      (Run-Counts full_path (hits entries) r (record {
        open_ended = λ n. refl;
        counted = λ n. omega arith;
        few = λ e. cc e;
        sent = λ b e. cc e;
      })).few
        a
