-- ===== src/Tests/Redis.antt =====
-- src/redis_client.rs on small inputs: a server that is a map, and a codec that knows one message.
use Prim.Native.String
use mcloudtt.Prelude.{
  ℕ, ◌+◌, ◌++◌, inl, inr, String, Option, none, some, ◌≡◌, ◌≢◌, refl, ap, List, [], ◌∷◌, Bool, true,
  false, ◌&&◌, ◌==◌, eqb, if◌then◌else◌, arith, eq_iff,
}
use mcloudtt.BTreeMap
use mcloudtt.BTreeMap.{BTreeMap}
use mcloudtt.BTreeMap.Laws.{get-insert_self}
use mcloudtt.Error.{ok}
use mcloudtt.Topics
use mcloudtt.Topics.{get_retained_message}
use mcloudtt.Redis.{
  RedisMessage, Crates, IsJson, IsStore, Synced, redis_message, publish, handle_message,
  restore_key,
}
use mcloudtt.Redis.Sync.{handle_message_other}
use mcloudtt.Redis.Thread.{Turn, unconnected, interrupted, arrived, Mpsc, receive_from_redis}
use mcloudtt.Redis.HandOver.{IsOpen, payloads, failures, receive_from_redis-payloads}
use mcloudtt.Redis.Restore.{restore_key-publish}
use mcloudtt.Tests.Setup.{env, kept, plain, Fields, no_topics, example_mqtt-BuildsGiven}

-- A message on the given topic.
abbrev pub known_on : String → RedisMessage
known_on k = record { sender_id = "one"; topic = k; payload = 9 ∷ []; qos = 1; retain = true }

abbrev known : RedisMessage
known = known_on "b"

unfoldable pub text_of : String → String → String → List ℕ → ℕ → Bool → Option String
text_of k s t [] q r = none
text_of k s t (n ∷ []) q false = none
text_of k s t (n ∷ []) q true =
    if s == "one" && t == k && eqb n 9 && eqb q 1 then some "json" else none
text_of k s t (n ∷ m ∷ b) q r = none

text_of-known :
    (k s t : String) (b : List ℕ) (q : ℕ) (r : Bool) (x : String)
    → text_of k s t b q r ≡ some x
    → ◌≡◌ {A = RedisMessage}
        (known_on k)
        (record { sender_id = s; topic = t; payload = b; qos = q; retain = r })
unfolding text_of
text_of-known k s t [] q r x e = cc
text_of-known k s t (n ∷ []) q false x e = cc
text_of-known k s t (n ∷ []) q true x e = ground (arith, eq_iff s "one", eq_iff t k)
text_of-known k s t (n ∷ m ∷ b) q r x e = cc

-- A codec that knows the message on one topic.
abbrev pub crates_on : String → Crates
crates_on k = record {
  Server = BTreeMap String;
  publish_to = λ channel text s. s;
  set = BTreeMap.insert;
  get = λ k s. (BTreeMap.get k s, s);
  keys = λ pattern s. (some [], s);
  to_text = λ m. text_of k m.sender_id m.topic m.payload m.qos m.retain;
  from_text = λ t. some (known_on k);
  from_text_option = λ t. some (some (known_on k));
  qos_code = λ q. 1;
}

pub crates_on-IsJson : (k : String) → IsJson (crates_on k)
crates_on-IsJson k = record {
  from_text-to_text =
      λ m t e. ap some (text_of-known k m.sender_id m.topic m.payload m.qos m.retain t e);
  from_text_option-to_text = λ m t e.
      ap (λ x. some (some x)) (text_of-known k m.sender_id m.topic m.payload m.qos m.retain t e);
}

abbrev pub crates : Crates
crates = crates_on "b"

crates-IsJson : IsJson crates
crates-IsJson = crates_on-IsJson "b"

crates-IsStore : IsStore crates
crates-IsStore = record { get-set = λ k v s. get-insert_self k v s }

abbrev pub broker : Synced env crates
broker = record { shared = no_topics; server = [] }

encoded : crates.to_text (redis_message env crates "one" (kept "b" 9)) ≡ some "json"
unfolding text_of
encoded = refl

-- What the builder makes of the packet.
abbrev built : Fields
built = record (plain "b" 9) { keep = true }

pub one_two : ◌≢◌ {A = String} "one" "two"
one_two e = ground (arith, (eq_iff "one" "two").1 e)

handle_message_other_example :
    (handle_message env crates "two" "json" broker
      ≡ (ok tt, record broker { shared = (Topics.publish env built no_topics).1 }))
    × (env.topic_name built ≡ "b")
    × (env.payload built ≡ 9 ∷ [])
    × (env.retain built ≡ true)
handle_message_other_example =
    handle_message_other env crates crates-IsJson example_mqtt-BuildsGiven "one" "two" "json"
      (kept "b" 9) built broker one_two encoded refl

restore_key-publish_example :
    let x =
      restore_key env crates
        (String.◌++◌ "retain:" "b")
        (record broker { server = (publish env crates "one" (kept "b" 9) broker).1.server }) in
    (x.0 ≡ ok tt)
    × (get_retained_message env "b" x.1.shared ≡ some (plain "b" 9))
    × (env.topic_name (plain "b" 9) ≡ "b")
    × (env.payload (plain "b" 9) ≡ 9 ∷ [])
unfolding BTreeMap.get
restore_key-publish_example =
    restore_key-publish env crates crates-IsJson crates-IsStore example_mqtt-BuildsGiven "one"
      "json" (kept "b" 9) (plain "b" 9) broker
      (record broker { server = (publish env crates "one" (kept "b" 9) broker).1.server }) refl
      encoded refl refl refl

abbrev mpsc : Mpsc
mpsc = record {
  Queue = List String;
  blocking_send = λ m q. some (q ++ m ∷ []);
  send_error = "channel closed";
}

mpsc-IsOpen : IsOpen mpsc (λ q. q)
mpsc-IsOpen = record { blocking_send_open = λ m q. (q ++ m ∷ [], refl, refl) }

abbrev turns : List Turn
turns =
    unconnected
    ∷ arrived (inr "json")
    ∷ interrupted
    ∷ arrived (inl "no text")
    ∷ arrived (inr "b")
    ∷ []

receive_from_redis-payloads_example :
    let (r, t) = receive_from_redis mpsc turns (record { queue = []; slept = 0 }) in
    (r ≡ ok tt) × (t.queue ≡ [] ++ payloads turns) × (t.slept ≡ 0 + failures turns)
receive_from_redis-payloads_example =
    receive_from_redis-payloads mpsc (λ q. q) mpsc-IsOpen turns (record { queue = []; slept = 0 })
