-- ===== src/Resources/RoundTrip.antt =====
-- The quota that `Set` writes is read back by `GetResources`.
use flotta_device_worker_ng.Base.{
  ℕ, ◌-◌, ◌^◌, ◌<◌, ◌≡◌, ◌≢◌, ◌⊎◌, refl, sym, ap, ◌∙◌, Bool, true, false, List, [], ◌∷◌, ◌++◌, some,
  if◌then◌else◌, ltb, ◌==◌, Bytes, codes, str_eq, All, arith, Bool-cases, inl, inr,
}
use flotta_device_worker_ng.Base.Decimal.{
  format, read_digits, read_digits-format, IsDigit, All-append, format-All, format_nonempty,
}
use flotta_device_worker_ng.Entity.Job.{CpuResource, no_resource, is_empty}
use flotta_device_worker_ng.Scheduler.Resources.{no_error, other_error, split}
use flotta_device_worker_ng.Resources.{
  Cgroups, in_range, negated, unsigned, atoi, is_space, trim_start, trim_end, trim_space, parsed,
  quota_of, read_parts, found_or, read_lines, set, read_file, get_resources,
}

split-append :
    (sep : ℕ) (s t : Bytes)
    → All (λ c. (c == sep) ≡ false) s
    → split sep (s ++ sep ∷ t) ≡ s ∷ split sep t
unfolding split
split-append sep [] t a = ground (arith)
split-append sep (c ∷ s) t a = ground (arith, a.0, split-append sep s t a.1)

-- A text of a sign and digits has no blank in it.
abbrev IsNumeral : ℕ → Type 0
IsNumeral c = (b'-' ≡ c) ⊎ IsDigit c

trim_start-All : (s : Bytes) → All (λ c. is_space c ≡ false) s → trim_start s ≡ s
unfolding trim_start
trim_start-All [] a = refl
trim_start-All (c ∷ s) a = rw a.0 refl

trim_end-All : (s : Bytes) → All (λ c. is_space c ≡ false) s → trim_end s ≡ s
unfolding trim_end
trim_end-All [] a = refl
trim_end-All (c ∷ s) a = ground (arith, a.0, trim_end-All s a.1)

trim_space-All : (s : Bytes) → All (λ c. is_space c ≡ false) s → trim_space s ≡ s
unfolding trim_space
trim_space-All s a = ap trim_end (trim_start-All s a) ∙ trim_end-All s a

-- `strconv.FormatInt` of the `int64` of a bit pattern.
unfoldable pub format_int : ℕ → Bytes
format_int n = if ltb n (2 ^ 63) then format n else b'-' ∷ format (2 ^ 64 - n)

unsigned_nonempty : (s : Bytes) → s ≢ [] → unsigned s ≡ read_digits s 0
unsigned_nonempty [] e = absurd (e refl)
unsigned_nonempty (c ∷ s) e = refl

atoi-digits :
    (s : Bytes) → All IsDigit s → s ≢ [] → atoi s ≡ in_range (2 ^ 63 - 1) (read_digits s 0)
unfolding atoi
atoi-digits [] a e = absurd (e refl)
atoi-digits (c ∷ s) a e = ground (arith, a.0)

atoi-minus : (s : Bytes) → s ≢ [] → atoi (b'-' ∷ s) ≡ negated (in_range (2 ^ 63) (read_digits s 0))
unfolding atoi
atoi-minus s e = ap (λ o. negated (in_range (2 ^ 63) o)) (unsigned_nonempty s e)

-- The `int64` of a bit pattern is read back from its decimal print.
atoi-format_int : (n : ℕ) → n < 2 ^ 64 → atoi (format_int n) ≡ some n
unfolding format_int
atoi-format_int n h = elim (Bool-cases (ltb n (2 ^ 63))) [
  | inl e ↦ rw e (
      atoi-digits (format n) (format-All n) (format_nonempty n)
      ∙ ap (in_range (2 ^ 63 - 1)) (read_digits-format n h)
      ∙ ground (arith, e))
  | inr e ↦
      let m = 2 ^ 64 - n in
      rw e (
        atoi-minus (format m) (format_nonempty m)
        ∙ ap (λ o. negated (in_range (2 ^ 63) o)) (read_digits-format m (ground (arith, e, h)))
        ∙ ground (arith, e, h))
]

All-map : (P Q : ℕ → Type 0) (s : Bytes) → ((c : ℕ) → P c → Q c) → All P s → All Q s
All-map P Q [] f a = tt
All-map P Q (c ∷ s) f a = (f c a.0, All-map P Q s f a.1)

format_int-All : (n : ℕ) → All IsNumeral (format_int n)
unfolding format_int
format_int-All n =
    let digits = λ (m : ℕ). All-map IsDigit IsNumeral (format m) (λ c d. inr d) (format-All m) in
    elim (Bool-cases (ltb n (2 ^ 63))) [
      | inl e ↦ rw e (digits n)
      | inr e ↦ rw e (inl refl, digits (2 ^ 64 - n))
    ]

nonempty : (s : Bytes) → s ≢ [] → is_empty s ≡ false
nonempty [] e = absurd (e refl)
nonempty (c ∷ s) e = refl

format_int_nonempty : (n : ℕ) → is_empty (format_int n) ≡ false
unfolding format_int
format_int_nonempty n = elim (Bool-cases (ltb n (2 ^ 63))) [
  | inl e ↦ rw e (nonempty (format n) (format_nonempty n))
  | inr e ↦ rw e refl
]

numeral-max : (s : Bytes) → All IsNumeral s → str_eq s (codes "max") ≡ false
unfolding str_eq
numeral-max [] a = refl
numeral-max (c ∷ s) a = ground (arith, a.0)

numeral_blank : (c : ℕ) → IsNumeral c → (c == b' ') ≡ false
numeral_blank c a = ground (arith, a)

numeral_space : (c : ℕ) → IsNumeral c → is_space c ≡ false
numeral_space c a = ground (arith, a)

quota_of-format_int :
    (n : ℕ)
    → n < 2 ^ 64
    → quota_of (format_int n) ≡ (record { value1 = n; value2 = 100000 }, no_error)
unfolding quota_of
quota_of-format_int n h =
    let rest = parsed (atoi (format_int n)) in
    ap (λ b. if b then (record { value1 = 100000; value2 = 100000 }, no_error) else rest)
      (numeral-max (format_int n) (format_int-All n))
    ∙ ap parsed (atoi-format_int n h)

read_parts_first :
    (p : Bytes) (ps : List Bytes)
    → trim_space p ≡ p
    → is_empty p ≡ false
    → read_parts (p ∷ ps) ≡ some (quota_of p)
unfolding read_parts
read_parts_first p ps t e =
    ap (λ q. if is_empty q then read_parts ps else some (quota_of q)) t
    ∙ ap (λ b. if b then read_parts ps else some (quota_of p)) e

-- The text that `NewCPUMax` is documented to make: the quota, a blank and the period.
unfoldable pub cpu_max : CpuResource → Bytes
cpu_max r = format_int r.value1 ++ (b' ' ∷ format r.value2)

-- No byte of the text of `cpu.max` ends a line.
cpu_max_line : (r : CpuResource) → All (λ c. (c == 10) ≡ false) (cpu_max r)
unfolding cpu_max
cpu_max_line r =
    All-append (λ c. (c == 10) ≡ false) (format_int r.value1) (b' ' ∷ format r.value2)
      (All-map IsNumeral (λ c. (c == 10) ≡ false) (format_int r.value1) (λ c d. ground (arith, d))
        (format_int-All r.value1))
      (
        refl,
        All-map IsDigit (λ c. (c == 10) ≡ false) (format r.value2) (λ c d. ground (arith, d))
            (format-All r.value2),
      )

read_lines-cpu_max :
    (r : CpuResource)
    → r.value1 < 2 ^ 64
    → read_lines (split 10 (cpu_max r ++ 10 ∷ []))
      ≡ (record { value1 = r.value1; value2 = 100000 }, no_error)
unfolding read_lines cpu_max
read_lines-cpu_max r h =
    let quota = format_int r.value1 in
    let blank =
      All-map IsNumeral (λ c. (c == b' ') ≡ false) quota numeral_blank (format_int-All r.value1) in
    let space =
      All-map IsNumeral (λ c. is_space c ≡ false) quota numeral_space (format_int-All r.value1) in
    let rest = read_lines (split 10 []) in
    ap read_lines (split-append 10 (cpu_max r) [] (cpu_max_line r))
    ∙ ap (λ ps. found_or (read_parts ps) rest) (split-append b' ' quota (format r.value2) blank)
    ∙ ap (λ o. found_or o rest)
        (read_parts_first quota (split b' ' (format r.value2)) (trim_space-All quota space)
          (format_int_nonempty r.value1))
    ∙ quota_of-format_int r.value1 h

-- A library of the cgroups that makes the text as documented, and a file system on which a `cpu.max`
-- that has been written holds the text as a line.
pub record IsFile {W : Type 0} (cgroups : Cgroups W) : Type 0 where
  pub text : (r : CpuResource) → cgroups.cpu_max r.value1 r.value2 ≡ cpu_max r
  pub loads_still :
      (path text : Bytes) (s : W)
      → cgroups.loads path (cgroups.write path text s).1 ≡ cgroups.loads path s
  pub reads :
      (path text : Bytes) (s : W)
      → (cgroups.write path text s).0 ≡ false
      → cgroups.read path (cgroups.write path text s).1 ≡ some (text ++ 10 ∷ [])

module _ {W : Type 0} (cgroups : Cgroups W) where
  set_loads :
      (b : Bool) (a : Bool × W) (s s' : W)
      → (if b then a else (true, s)) ≡ (false, s')
      → (b ≡ true) × (a.0 ≡ false) × (a.1 ≡ s')
  set_loads true a s s' e = (refl, ap (λ (t : Bool × W). t.0) e, ap (λ (t : Bool × W). t.1) e)
  set_loads false a s s' e = cc e

  -- Where `Set` returns no error, over a library that makes the text as documented and a file system that keeps what is
  -- written, `GetResources` reads back
  -- the quota that was set, and always 100000 for the period, whatever period was set. The quota is any
  -- bit pattern of 64 bits, read as an `int64`.
  pub get_resources-set :
      (path : Bytes) (r : CpuResource) (s s' : W)
      → IsFile cgroups
      → r.value1 < 2 ^ 64
      → set cgroups path r s ≡ (false, s')
      → get_resources cgroups path s' ≡ (record { value1 = r.value1; value2 = 100000 }, no_error)
  unfolding set get_resources
  get_resources-set path r s s' f h e =
      let text = cgroups.cpu_max r.value1 r.value2 in
      let (b, w, same) = set_loads (cgroups.loads path s) (cgroups.write path text s) s s' e in
      let get = λ (t : W). get_resources cgroups path t in
      let s1 = (cgroups.write path text s).1 in
      let file = read_file cgroups (cgroups.read path s1) in
      ap get (sym same)
      ∙ ap (λ b. if b then file else (no_resource, other_error)) (f.loads_still path text s ∙ b)
      ∙ ap (read_file cgroups) (f.reads path text s w)
      ∙ ap (λ t. read_lines (split 10 (t ++ 10 ∷ []))) (f.text r)
      ∙ read_lines-cpu_max r h
