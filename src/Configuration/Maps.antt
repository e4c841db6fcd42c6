-- ===== src/Configuration/Maps.antt =====
-- Maps that are filled with new keys only: the pairs stand in the order in which they come.
use flotta_device_worker_ng.Base.{
  ◌≡◌, refl, ap, false, List, [], ◌∷◌, ◌++◌, Bytes, insert, str_eq, str_eq_iff, All, arith,
  Bool-cases, inl, inr, sym, ◌∙◌, append_assoc, append-nil,
}
use flotta_device_worker_ng.Scheduler.Util.Laws.{has, Distinct}

abbrev pub key : {V : Type 0} → Bytes × V → Bytes
key p = p.0

pub insert_new :
    {V : Type 0} (k : Bytes) (v : V) (m : List (Bytes × V))
    → has key k m ≡ false
    → insert k v m ≡ m ++ (k, v) ∷ []
unfolding insert has
insert_new k v [] h = refl
insert_new k v ((j, w) ∷ m) h = elim (Bool-cases (str_eq j k)) [
  | inl e ↦ cc (e, h)
  | inr e ↦ rw e (ap (λ t. (j, w) ∷ t) (insert_new k v m (ground (arith, h, e))))
]

has-key_append :
    {V : Type 0} (k j : Bytes) (v : V) (m : List (Bytes × V))
    → has key k m ≡ false
    → str_eq j k ≡ false
    → has key k (m ++ (j, v) ∷ []) ≡ false
unfolding has
has-key_append k j v [] h e = ground (arith, e)
has-key_append k j v ((i, w) ∷ m) h e = ground (arith, h, has-key_append k j v m)

-- The names of some profiles stay new behind one of another name.
pub still_new :
    {V U : Type 0} (k : Bytes) (v : V) (m : List (Bytes × V)) (ps : List (Bytes × U))
    → has key k ps ≡ false
    → All (λ p. has key (key p) m ≡ false) ps
    → All (λ p. has key (key p) (m ++ (k, v) ∷ []) ≡ false) ps
unfolding has
still_new k v m [] h a = tt
still_new k v m (p ∷ ps) h a =
    let apart : str_eq k (key p) ≡ false = ground (arith, h, str_eq_iff k p.0, str_eq_iff p.0 k) in
    (has-key_append (key p) k v m a.0 apart, still_new k v m ps (ground (arith, h)) a.1)

pub none_held :
    {V U : Type 0} (ps : List (Bytes × U)) (m : List (Bytes × V))
    → m ≡ []
    → All (λ p. has key (key p) m ≡ false) ps
unfolding has
none_held [] m e = tt
none_held (p ∷ ps) m e = (rw e refl, none_held ps m e)

-- A map filled with pairs one after another.
unfoldable pub insert_all : {V : Type 0} → List (Bytes × V) → List (Bytes × V) → List (Bytes × V)
insert_all [] m = m
insert_all (p ∷ ps) m = insert_all ps (insert p.0 p.1 m)

insert_all-append :
    {V : Type 0} (ps m : List (Bytes × V))
    → Distinct key ps
    → All (λ p. has key (key p) m ≡ false) ps
    → insert_all ps m ≡ m ++ ps
unfolding insert_all
insert_all-append [] m d a = sym (append-nil m)
insert_all-append (p ∷ ps) m d a =
    ap (insert_all ps) (insert_new p.0 p.1 m a.0)
    ∙ insert_all-append ps (m ++ p ∷ []) d.1 (still_new p.0 p.1 m ps d.0 a.1)
    ∙ append_assoc m (p ∷ []) ps

pub insert_all-Distinct :
    {V : Type 0} (ps : List (Bytes × V)) → Distinct key ps → insert_all ps [] ≡ ps
insert_all-Distinct ps d = insert_all-append ps [] d (none_held ps [] refl)
