-- ===== src/Client/Connection/Queues.antt =====
-- What all receivers of a client have to read, in the order in which the loop of
-- src/tcp_handling.rs takes it.
use mcloudtt.Prelude.{
  ℕ, suc, ◌+◌, String, some, ◌≡◌, ◌↔◌, ◌==◌, ◌⊎◌, inl, inr, refl, List, [], ◌∷◌, ◌++◌, append_assoc,
  length, true, false, Bool-cases, List-cases, arith, eq_iff, eq_refl, if◌then◌else◌,
}
use mcloudtt.Prelude.Order.{str_ltb, str_ltb_irrefl}
use mcloudtt.BTreeMap.{BTreeMap, get, find}
use mcloudtt.BTreeMap.Laws.{Above, IsSorted, get-Above, get-tail}
use mcloudtt.Mqtt.{Packet}
use mcloudtt.Env.{Env}
use mcloudtt.Client.State.{World}
use mcloudtt.Client.Connection.{has_message}
use mcloudtt.Client.Connection.Forward.{stream_of}

module _ (E : Env) where
  -- The packets that wait for the client on each topic.
  abbrev pub Queues : Type 0
  Queues = String → List E.PublishPacket

  abbrev pub set_queue : String → List E.PublishPacket → Queues → Queues
  set_queue f ps q g = if g == f then ps else q g

  unfoldable pub total : Queues → BTreeMap E.Receiver → ℕ
  total q [] = 0
  total q ((f, r) ∷ m) = length (q f) + total q m

  -- The bytes of all of them, topic by topic.
  unfoldable pub bytes_in : Queues → BTreeMap E.Receiver → List ℕ
  bytes_in q [] = []
  bytes_in q ((f, r) ∷ m) = stream_of E (q f) ++ bytes_in q m

  above_ne : (f g : String) → str_ltb f g ≡ true → (g == f) ≡ false
  above_ne f g h = ground (arith, eq_iff g f, str_ltb_irrefl f)

  -- Another topic does not matter.
  total-set_queue :
      (f : String) (ps : List E.PublishPacket) (q : Queues) (m : BTreeMap E.Receiver)
      → Above f m
      → total (set_queue f ps q) m ≡ total q m
  unfolding total
  total-set_queue f ps q [] a = refl
  total-set_queue f ps q ((g, r) ∷ m) a = rw (above_ne f g a.0, total-set_queue f ps q m a.1) refl

  bytes_in-set_queue :
      (f : String) (ps : List E.PublishPacket) (q : Queues) (m : BTreeMap E.Receiver)
      → Above f m
      → bytes_in (set_queue f ps q) m ≡ bytes_in q m
  unfolding bytes_in
  bytes_in-set_queue f ps q [] a = refl
  bytes_in-set_queue f ps q ((g, r) ∷ m) a =
      rw (above_ne f g a.0, bytes_in-set_queue f ps q m a.1) refl

  -- The packet that is next, and what is left without it.
  pub record Front (w : World E) (q : Queues) (m : BTreeMap E.Receiver) : Type 0 where
    pub key : String
    pub receiver : E.Receiver
    pub packet : E.PublishPacket
    pub rest : List E.PublishPacket
    pub found : find (has_message E w) m ≡ some (key, receiver)
    pub entry : get key m ≡ some receiver
    pub queue : q key ≡ packet ∷ rest
    pub one_less : total q m ≡ suc (total (set_queue key rest q) m)
    pub bytes :
        bytes_in q m ≡ E.encode_mqtt (Packet.publish packet) ++ bytes_in (set_queue key rest q) m

  -- The queues say which receivers have a message.
  abbrev pub Matches : World E → Queues → BTreeMap E.Receiver → Type 0
  Matches w q m =
      (f : String) (r : E.Receiver)
      → get f m ≡ some r
      → (E.bus.is_empty r w.shared.hub ≡ true) ↔ (q f ≡ [])

  Front-here :
      (w : World E) (q : Queues) (k : String) (x : E.Receiver) (m : BTreeMap E.Receiver)
      (p : E.PublishPacket) (ps : List E.PublishPacket)
      → Above k m
      → E.bus.is_empty x w.shared.hub ≡ false
      → q k ≡ p ∷ ps
      → Front w q ((k, x) ∷ m)
  unfolding find get total bytes_in stream_of
  Front-here w q k x m p ps a full e = record {
    key = k;
    receiver = x;
    packet = p;
    rest = ps;
    found = rw full refl;
    entry = rw (eq_refl k) refl;
    queue = e;
    one_less = rw (e, eq_refl k, total-set_queue k ps q m a) (omega arith);
    bytes =
        rw (e, eq_refl k, bytes_in-set_queue k ps q m a)
          (append_assoc (E.encode_mqtt (Packet.publish p)) (stream_of E ps) (bytes_in q m));
  }

  Front-later :
      (w : World E) (q : Queues) (k : String) (x : E.Receiver) (m : BTreeMap E.Receiver)
      → Above k m
      → E.bus.is_empty x w.shared.hub ≡ true
      → q k ≡ []
      → Front w q m
      → Front w q ((k, x) ∷ m)
  unfolding find get total bytes_in stream_of
  Front-later w q k x m a empty e f =
      let ne : (k == f.key) ≡ false = ground (arith, eq_iff k f.key, get-Above k m a, f.entry) in
      let ne' : (f.key == k) ≡ false = ground (arith, eq_iff k f.key, eq_iff f.key k) in
      record {
        key = f.key;
        receiver = f.receiver;
        packet = f.packet;
        rest = f.rest;
        found = rw empty f.found;
        entry = rw ne' f.entry;
        queue = f.queue;
        one_less = rw (ne, e) (omega (arith, f.one_less));
        bytes = rw (ne, e) f.bytes;
      }

  pub Front-cases :
      (w : World E) (q : Queues) (m : BTreeMap E.Receiver)
      → IsSorted m
      → Matches w q m
      → (total q m ≡ 0) ⊎ Front w q m
  unfolding total get
  Front-cases w q [] s h = inl refl
  Front-cases w q ((k, x) ∷ m) s h =
      let here = h k x (rw (eq_refl k) refl) in
      let later : Matches w q m = λ f r e. h f r (get-tail k f x r m s e) in
      elim (Bool-cases (E.bus.is_empty x w.shared.hub)) [
        | inl empty ↦
            let none_here = here.0 empty in
            elim (Front-cases w q m s.1 later) [
              | inl done ↦ inl (rw (none_here, done) refl)
              | inr f ↦ inr (Front-later w q k x m s.0 empty none_here f)
            ]
        | inr full ↦ elim (List-cases (q k)) [
          | inl e ↦ absurd (let empty = here.1 e in cc)
          | inr (p, ps, e) ↦ inr (Front-here w q k x m p ps s.0 full e)
        ]
      ]
