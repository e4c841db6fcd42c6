-- ===== src/Resources/Search/Found.antt =====
-- What a search finds.
use mathlib.Core.List.{Memᴰ}
use flotta_device_worker_ng.Base.{
  ◌≡◌, refl, sym, subst, Bool, true, false, List, [], ◌∷◌, some, if◌then◌else◌, Bytes,
}
use flotta_device_worker_ng.Resources.Search.{
  Entry, Search, start, ended_with, hit, given, walk_on, on_walk, Step, Run,
}

module _ (matches : Bytes → Bool) (full_path : Bool) (entries : List Entry) where
  -- A path is what is sent for a directory of the walk that matches.
  abbrev pub Source : Bytes → Type 0
  Source p = (e : Entry) × Memᴰ e entries × (hit matches e ≡ true) × (given matches full_path e ≡ p)

  record Finds (s : Search) : Type 0 where
    pub sent : (p : Bytes) → s.output ≡ some p → Source p
    pub chosen : (p : Bytes) → s.answer ≡ some (some p) → Source p
    pub rests : (e : Entry) → Memᴰ e s.rest → Memᴰ e entries

  branch-Finds :
      (f h k : Bool) (x : Entry) (es : List Entry) (s : Search)
      → Finds s
      → hit matches x ≡ h
      → Memᴰ x entries
      → ((e : Entry) → Memᴰ e es → Memᴰ e entries)
      → Finds (
          if f
          then ended_with true s
          else if h
          then record s { rest = es; output = some (given matches full_path x) }
          else if k
          then ended_with true s
          else record s { rest = es })
  branch-Finds true h k x es s c e m r = record {
    sent = c.sent;
    chosen = c.chosen;
    rests = c.rests;
  }
  branch-Finds false true k x es s c e m r = record {
    sent = λ p q. (x, m, e, cc q);
    chosen = c.chosen;
    rests = r;
  }
  branch-Finds false false true x es s c e m r = record {
    sent = c.sent;
    chosen = c.chosen;
    rests = c.rests;
  }
  branch-Finds false false false x es s c e m r = record {
    sent = c.sent;
    chosen = c.chosen;
    rests = r;
  }

  walk-Finds :
      (es : List Entry) (s : Search)
      → s.rest ≡ es
      → Finds s
      → Finds (walk_on matches full_path es s)
  walk-Finds [] s r c = record { sent = c.sent; chosen = c.chosen; rests = c.rests }
  walk-Finds (x ∷ es) s r c =
      let within : (e : Entry) → Memᴰ e (x ∷ es) → Memᴰ e entries =
        λ e m. c.rests e (subst (Memᴰ e) (sym r) m) in
      branch-Finds x.failed (hit matches x) s.cancelled x es s c refl (within x (Memᴰ.head refl))
        (λ e m. within e (Memᴰ.tail m))

  Step-Finds : {s t : Search} → Step matches full_path s t → Finds s → Finds t
  unfolding on_walk
  Step-Finds (Step.walk s e w) c = walk-Finds s.rest s refl c
  Step-Finds (Step.take p s o a) c = record {
    sent = λ q e. cc e;
    chosen = λ q e. subst Source (cc e) (c.sent p o);
    rests = c.rests;
  }
  Step-Finds (Step.fail b s f a) c = record { sent = c.sent; chosen = λ q e. cc e; rests = c.rests }
  Step-Finds (Step.cancel a s e) c = record { sent = c.sent; chosen = c.chosen; rests = c.rests }

  Run-Finds : {s t : Search} → Run matches full_path s t → Finds s → Finds t
  Run-Finds (Run.stop s) c = c
  Run-Finds (Run.next s r) c = Run-Finds r (Step-Finds s c)

  start-Finds : Finds (start entries)
  unfolding start
  start-Finds = record { sent = λ p e. cc e; chosen = λ p e. cc e; rests = λ e m. m }

  pub sent-Source :
      {s : Search} (p : Bytes)
      → Run matches full_path (start entries) s
      → s.output ≡ some p
      → Source p
  sent-Source p r e = (Run-Finds r start-Finds).sent p e

  -- A path with which a search answers is what is sent for a directory of the walk whose name matches.
  pub answer-Source :
      {s : Search} (p : Bytes)
      → Run matches full_path (start entries) s
      → s.answer ≡ some (some p)
      → Source p
  answer-Source p r e = (Run-Finds r start-Finds).chosen p e
