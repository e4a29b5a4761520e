-- ===== src/Demo/Column.antt =====
-- What examples/demo_client.rs publishes.
use mcloudtt.Prelude.{
  ℕ, ◌+◌, ◌*◌, String, Option, none, some, Option-cases, ◌≡◌, refl, sym, ap, ◌∙◌, Bool, true, false,
  inl, inr, List, [], ◌∷◌, ◌++◌, append_assoc, append-nil, arith, length, map,
}
use native.Mathlib.Nat.{mul-suc}
use mcloudtt.Error.{Result, Action, ok, panic, unwrap, modify, continue, ◌>>=◌, ◌>>◌}
use mcloudtt.Demo.{Paho, Args, Client, get_field, unwrapped, send, publish_record, publish_records}

-- A client whose publications succeed, and are then among those that were sent.
pub record IsOnline (P : Paho) (sent : P.Connection → List (String × String)) : Type 0 where
  pub publish_succeeds : (t x : String) (c : P.Connection) → (P.publish t x c).0 ≡ true
  pub publish_sends :
      (t x : String) (c : P.Connection) → sent (P.publish t x c).1 ≡ sent c ++ (t, x) ∷ []

-- The field of a record, if the record can be read and has it.
abbrev pub field_of : ℕ → Option (List String) → Option String
field_of column none = none
field_of column (some fields) = get_field column fields

-- The fields of the column up to the first record that has none.
pub column_of : ℕ → List (Option (List String)) → List String
column_of i [] = []
column_of i (r ∷ rs) = elim (field_of i r) [ none ↦ [] | some x ↦ x ∷ column_of i rs ]

-- Each record has the column.
pub is_complete : ℕ → List (Option (List String)) → Bool
is_complete i [] = true
is_complete i (r ∷ rs) = elim (field_of i r) [ none ↦ false | some x ↦ is_complete i rs ]

module _ (P : Paho) (args : Args) where
  missing_field :
      (r : Option (List String)) (c : Client P)
      → field_of args.column r ≡ none
      → publish_record P args r c ≡ (panic, c)
  unfolding publish_record
  missing_field none c e = refl
  missing_field (some fields) c e = rw (e, publish_record) refl

  present_field :
      (r : Option (List String)) (c : Client P) (x : String)
      → field_of args.column r ≡ some x
      → (P.publish args.topic x c.connection).0 ≡ true
      → publish_record P args r c ≡ (
        ok tt,
        record {
          connection = (P.publish args.topic x c.connection).1;
          slept = c.slept + args.interval;
        },
      )
  unfolding publish_record
  present_field none c x e now = cc
  present_field (some fields) c x e now =
      let rest : Action (Client P) (Unit {0}) =
        modify (λ c'. record c' { slept = c'.slept + args.interval }) in
      let y = (P.publish args.topic x c.connection).1 in
      ap (λ o. (unwrap o >>= λ text. send P args text >> rest) c) e
      ∙ ap (λ b. (unwrapped P args (b, y) >> rest) c) now

  stops :
      (r : Option (List String)) (rs : List (Option (List String))) (c : Client P)
      → field_of args.column r ≡ none
      → publish_records P args (r ∷ rs) c ≡ (panic, c)
  unfolding publish_records
  stops r rs c e = ap (λ y. continue y.0 (λ _. publish_records P args rs) y.1) (missing_field r c e)

  goes_on :
      (r : Option (List String)) (rs : List (Option (List String))) (c : Client P) (x : String)
      → field_of args.column r ≡ some x
      → (P.publish args.topic x c.connection).0 ≡ true
      → publish_records P args (r ∷ rs) c
        ≡ publish_records P args rs (record {
          connection = (P.publish args.topic x c.connection).1;
          slept = c.slept + args.interval;
        })
  unfolding publish_records
  goes_on r rs c x e now =
      ap (λ y. continue y.0 (λ _. publish_records P args rs) y.1) (present_field r c x e now)

module _ (P : Paho) (args : Args) (sent : P.Connection → List (String × String))
    (O : IsOnline P sent) where
  -- The sequence of records was published, up to the first that has no such field.
  pub record IsPublished (rs : List (Option (List String))) (c : Client P)
      (x : Result (Unit {0}) × Client P) : Type 0 where
    pub ends : x.0 ≡ (elim (is_complete args.column rs) [ true ↦ ok tt | false ↦ panic ])
    pub bytes :
        sent x.1.connection
        ≡ sent c.connection ++ map (λ t. (args.topic, t)) (column_of args.column rs)
    pub paced : x.1.slept ≡ c.slept + args.interval * length (column_of args.column rs)

  -- On a connection whose publications succeed, the demo client publishes to its topic, in order,
  -- the field of its column of each record up to the first that cannot be read or has no such
  -- field, and has slept for the interval once for each; it panics if there is such a record, and
  -- else gets to the end.
  pub publish_records-column :
      (rs : List (Option (List String))) (c : Client P)
      → IsPublished rs c (publish_records P args rs c)
  unfolding publish_records column_of is_complete
  publish_records-column [] c = record {
    ends = refl;
    bytes = sym (append-nil (sent c.connection));
    paced = omega arith;
  }
  publish_records-column (r ∷ rs) c = elim (Option-cases (field_of args.column r)) [
    | inl e ↦ rw (stops P args r rs c e) (record {
      ends = rw (e, is_complete) refl;
      bytes = rw (e, column_of) (sym (append-nil (sent c.connection)));
      paced = rw (e, column_of) (omega arith);
    })
    | inr (x, e) ↦
        let c' : Client P = record {
          connection = (P.publish args.topic x c.connection).1;
          slept = c.slept + args.interval;
        } in
        let rest = publish_records-column rs c' in
        let tail = column_of args.column rs in
        let pairs : List (String × String) = map (λ t. (args.topic, t)) tail in
        rw (goes_on P args r rs c x e (O.publish_succeeds args.topic x c.connection)) (record {
          ends = rw (e, is_complete) rest.ends;
          bytes =
              rw (e, column_of)
                (rest.bytes
                  ∙ ap (λ q. q ++ pairs) (O.publish_sends args.topic x c.connection)
                  ∙ append_assoc (sent c.connection) ((args.topic, x) ∷ []) pairs);
          paced =
              rw (e, column_of) (omega (arith, rest.paced, mul-suc args.interval (length tail)));
        })
  ]
