-- ===== src/BTreeMap/Laws.antt =====
-- The laws of the map, which its clients use in place of its definition.
use mcloudtt.Prelude.{
  Bool-cases, inl, inr, ap, String, Bool, false, none, some, [], ◌∷◌, true, ◌≡◌, refl, ◌∙◌, ◌==◌,
  if◌then◌else◌, arith, eq_iff, eq_refl,
}
use mcloudtt.Prelude.Order.{str_ltb, str_ltb_trans, str_ltb_total, str_ltb_irrefl}
use mcloudtt.BTreeMap.{BTreeMap, get, insert, remove, find}

module _ {ℓ} {V : Type ℓ} where
  pub get-insert :
      (k j : String) (v : V) (m : BTreeMap V)
      → get j (insert k v m) ≡ (if j == k then some v else get j m)
  unfolding get insert
  get-insert k j v [] = refl
  get-insert k j v ((i, w) ∷ m) =
      ground (arith, eq_iff k i, eq_iff j k, eq_iff j i, get-insert k j v m)

  pub get-remove :
      (k j : String) (m : BTreeMap V) → get j (remove k m) ≡ (if j == k then none else get j m)
  unfolding get remove
  get-remove k j [] = ground arith
  get-remove k j ((i, w) ∷ m) = ground (arith, eq_iff k i, eq_iff j k, eq_iff j i, get-remove k j m)

  pub get-insert_self : (k : String) (v : V) (m : BTreeMap V) → get k (insert k v m) ≡ some v
  get-insert_self k v m = simp (get-insert, eq_refl)

  pub get-remove_self : (k : String) (m : BTreeMap V) → get k (remove k m) ≡ none
  get-remove_self k m = simp (get-remove, eq_refl)

  -- Every key is above `k`.
  abbrev pub Above : String → BTreeMap V → Type 0
  Above k [] = Unit
  Above k ((j, v) ∷ m) = (str_ltb k j ≡ true) × Above k m

  -- The keys rise along the list.
  abbrev pub IsSorted : BTreeMap V → Type 0
  IsSorted [] = Unit
  IsSorted ((k, v) ∷ m) = Above k m × IsSorted m

  Above-trans : (k j : String) (m : BTreeMap V) → str_ltb k j ≡ true → Above j m → Above k m
  Above-trans k j [] h a = tt
  Above-trans k j ((i, v) ∷ m) h a = (str_ltb_trans k j i h a.0, Above-trans k j m h a.1)

  Above-insert :
      (i k : String) (v : V) (m : BTreeMap V)
      → str_ltb i k ≡ true
      → Above i m
      → Above i (insert k v m)
  unfolding insert
  Above-insert i k v [] h a = (h, tt)
  Above-insert i k v ((j, w) ∷ m) h a = ground (arith, Above-insert i k v m h a.1)

  pub insert-IsSorted : (k : String) (v : V) (m : BTreeMap V) → IsSorted m → IsSorted (insert k v m)
  unfolding insert
  insert-IsSorted k v [] s = (tt, tt)
  insert-IsSorted k v ((j, w) ∷ m) s = ground (
    arith,
    eq_iff k j,
    Above-trans k j m,
    str_ltb_total k j,
    Above-insert j k v m,
    insert-IsSorted k v m s.1,
  )

  Above-remove : (i k : String) (m : BTreeMap V) → Above i m → Above i (remove k m)
  unfolding remove
  Above-remove i k [] a = tt
  Above-remove i k ((j, w) ∷ m) a = ground (arith, Above-remove i k m a.1)

  pub remove-IsSorted : (k : String) (m : BTreeMap V) → IsSorted m → IsSorted (remove k m)
  unfolding remove
  remove-IsSorted k [] s = tt
  remove-IsSorted k ((j, w) ∷ m) s = ground (arith, Above-remove j k m s.0, remove-IsSorted k m s.1)

  find-Above :
      (p : String × V → Bool) (k : String) (m : BTreeMap V) (e : String × V)
      → Above k m
      → find p m ≡ some e
      → str_ltb k e.0 ≡ true
  unfolding find
  find-Above p k [] e a h = cc
  find-Above p k (d ∷ m) e a h = ground (arith, find-Above p k m e a.1)

  -- What `find` finds passes the test, and is the entry of its key.
  pub find-found :
      (p : String × V → Bool) (m : BTreeMap V) (e : String × V)
      → IsSorted m
      → find p m ≡ some e
      → (p e ≡ true) × (get e.0 m ≡ some e.1)
  unfolding find get
  find-found p [] e s h = cc
  find-found p (d ∷ m) e s h =
      ground
        (arith, find-found p m e s.1, find-Above p d.0 m e s.0, eq_iff e.0 d.0, str_ltb_irrefl d.0)

module _ {V : Type 0} where
  -- A key below all others is not in the map.
  pub get-Above : (k : String) (m : BTreeMap V) → Above k m → get k m ≡ none
  unfolding get
  get-Above k [] a = refl
  get-Above k ((j, v) ∷ m) a = ground (arith, eq_iff k j, str_ltb_irrefl k, get-Above k m a.1)

  -- What the rest of a map has, the map has.
  pub get-tail :
      (k j : String) (v x : V) (m : BTreeMap V)
      → IsSorted ((k, v) ∷ m)
      → get j m ≡ some x
      → get j ((k, v) ∷ m) ≡ some x
  unfolding get
  get-tail k j v x m s e = elim (Bool-cases (j == k)) [
    | inl here ↦
        let same = (eq_iff j k).0 here in
        ground (arith, get-Above k m s.0, ap (λ i. get i m) same, e)
    | inr there ↦ rw there e
  ]

  entry_fails :
      (p : String × V → Bool) (d : String × V) (k : String) (v : V)
      → (k == d.0) ≡ true
      → some d.1 ≡ some v
      → p d ≡ false
      → p (k, v) ≡ false
  entry_fails p d k v here g fail =
      let key = (eq_iff k d.0).0 here in
      let value : v ≡ d.1 = cc in ap p (λ i. (key i, value i)) ∙ fail

  -- The entries of smaller keys do not pass the test.
  pub find-least :
      (p : String × V → Bool) (m : BTreeMap V) (e : String × V) (k : String) (v : V)
      → IsSorted m
      → find p m ≡ some e
      → get k m ≡ some v
      → str_ltb k e.0 ≡ true
      → p (k, v) ≡ false
  unfolding find get
  find-least p [] e k v s h g lt = cc
  find-least p (d ∷ m) e k v s h g lt = elim (Bool-cases (p d)) [
    | inl pass ↦
        let same : d ≡ e = cc in
        let below : str_ltb k d.0 ≡ true = rw (ap (λ x. x.0) same) lt in
        let above = Above-trans k d.0 m below s.0 in
        ground (arith, eq_iff k d.0, str_ltb_irrefl k, get-Above k m above)
    | inr fail ↦ elim (Bool-cases (k == d.0)) [
      | inl here ↦ entry_fails p d k v here (rw here at g) fail
      | inr there ↦ find-least p m e k v s.1 (rw fail at h) (rw there at g) lt
    ]
  ]

  -- No entry passes a test that `find` finds nothing for.
  pub find-none :
      (p : String × V → Bool) (m : BTreeMap V) (k : String) (v : V)
      → find p m ≡ none
      → get k m ≡ some v
      → p (k, v) ≡ false
  unfolding find get
  find-none p [] k v h g = cc
  find-none p (d ∷ m) k v h g = elim (Bool-cases (p d)) [
    | inl pass ↦ ground arith
    | inr fail ↦ elim (Bool-cases (k == d.0)) [
      | inl here ↦ entry_fails p d k v here (rw here at g) fail
      | inr there ↦ find-none p m k v (rw fail at h) (rw there at g)
    ]
  ]
