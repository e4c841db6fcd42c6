-- ===== src/Scheduler/Evaluate/Offers.antt =====
-- The evaluation of a job chooses the resource of a condition.
use flotta_device_worker_ng.Base.{
  ℕ, ◌≡◌, refl, inl, inr, ◌⊎◌, Bool, true, false, ◌||◌, List, [], ◌∷◌, Option, none, some, leb,
  if◌then◌else◌, Bool-cases,
}
use flotta_device_worker_ng.Entity.Job.{CpuResource}
use flotta_device_worker_ng.Scheduler.Evaluate.{
  Entry, ResultsMap, Choice, weigh, choose, counted, total, initial,
}

abbrev pub step : Bool → Option CpuResource → Choice → Choice
step active resource ch = if active then weigh resource ch else ch

-- A condition of a profile that is active and has a CPU, and one of any profile.
abbrev pub Offers : CpuResource → List Entry → Type 0
Offers r [] = ⊥
Offers r (e ∷ es) = ((e.1.active ≡ true) × (e.1.resource ≡ some r)) ⊎ Offers r es

abbrev pub OffersIn : CpuResource → ResultsMap → Type 0
OffersIn r [] = ⊥
OffersIn r ((name, es) ∷ m) = Offers r es ⊎ OffersIn r m

step-Offers :
    (b : Bool) (o : Option CpuResource) (ch : Choice) (r : CpuResource)
    → (step b o ch).resource ≡ some r
    → (ch.resource ≡ some r) ⊎ ((b ≡ true) × (o ≡ some r))
step-Offers true (some x) ch r = elim (Bool-cases (leb x.value1 ch.min_cpu)) [
  | inl f ↦ rw f λ e. inr (refl, e)
  | inr f ↦ rw f λ e. inl e
]
step-Offers true none ch r = λ e. inl e
step-Offers false o ch r = λ e. inl e

choose-Offers :
    (es : List Entry) (found : Bool) (ch : Choice) (r : CpuResource)
    → (choose es found ch).1.resource ≡ some r
    → (ch.resource ≡ some r) ⊎ Offers r es
unfolding choose
choose-Offers [] found ch r e = inl e
choose-Offers (x ∷ es) found ch r e =
    let ch1 = step x.1.active x.1.resource ch in
    elim (choose-Offers es (x.1.active || found) ch1 r e) [
      | inr o ↦ inr (inr o)
      | inl f ↦ elim (step-Offers x.1.active x.1.resource ch r f) [
        | inl g ↦ inl g
        | inr o ↦ inr (inl o)
      ]
    ]

total-OffersIn :
    (m : ResultsMap) (sum : ℕ) (ch : Choice) (r : CpuResource)
    → (total m sum ch).1.resource ≡ some r
    → (ch.resource ≡ some r) ⊎ OffersIn r m
unfolding total
total-OffersIn [] sum ch r e = inl e
total-OffersIn ((name, es) ∷ m) sum ch r e =
    let c = choose es false ch in
    elim (total-OffersIn m (counted c.0 sum) c.1 r e) [
      | inr o ↦ inr (inr o)
      | inl f ↦ elim (choose-Offers es false ch r f) [ inl g ↦ inl g | inr o ↦ inr (inl o) ]
    ]

pub offered :
    (m : ResultsMap) (r : CpuResource) → (total m 0 initial).1.resource ≡ some r → OffersIn r m
offered m r e = elim (total-OffersIn m 0 initial r e) [ inl f ↦ cc f | inr o ↦ o ]
