-- ===== src/Tests/FanOut.antt =====
-- Two subscribers of "a" and a publisher (src/main.rs).
use mcloudtt.Prelude.{
  none, some, ◌≡◌, ◌∙◌, sym, refl, ap, List, [], ◌∷◌, ◌++◌, All, map, arith, true, String, eq_iff,
}
use mcloudtt.BTreeMap
use mcloudtt.BTreeMap.{get}
use mcloudtt.Topics
use mcloudtt.Topics.{Shared}
use mcloudtt.Topics.Invariant.{IsValid, subscribe-IsValid}
use mcloudtt.Topics.Delivery.{Reads}
use mcloudtt.Client.Connection.{read}
use mcloudtt.Server.{task, Task, System, serve, Common}
use mcloudtt.Server.Invariant.{IsSystem, append-IsSystem}
use mcloudtt.Server.Arrival.{IsIdle}
use mcloudtt.Server.Turns.{Subscriber, turn, HasGot}
use mcloudtt.Server.FanOut.{serve-fan_out}
use mcloudtt.Tests.Setup.{
  env, view, laws, plain, fresh_world, decode, example_io-IsStream, example_io-IsConnected,
}
use mcloudtt.Tests.Topics.{one_topic, one_topic-IsValid, reader}
use mcloudtt.Tests.Server.{example_net, subscriber, publisher}

abbrev shared_by_two : Shared env
shared_by_two = (Topics.subscribe env "a" one_topic).1

abbrev second_reader : env.Receiver
second_reader = record { id = 1; sender = reader.sender }

abbrev second : Task env
second = record {
  addr = "three";
  client = record fresh_world.client { receivers = ("a", second_reader) ∷ [] };
  stream = [];
  running = true;
}

only :
    (x : env.Receiver) (f : String) (r : env.Receiver)
    → get f (("a", x) ∷ []) ≡ some r
    → (f ≡ "a") × (r ≡ x)
unfolding get
only x f r e = ground (arith, eq_iff f "a")

first_reader_lives : Reads env view reader "a" shared_by_two
unfolding Topics.subscribe Topics.add Topics.new Topics.put get BTreeMap.insert
first_reader_lives = record {
  channel = record { sender = reader.sender; retained_message = none };
  found = refl;
  attached = refl;
  live = refl;
}

second_reader_lives : Reads env view second_reader "a" shared_by_two
unfolding Topics.subscribe Topics.add Topics.new Topics.put get BTreeMap.insert
second_reader_lives = record {
  channel = record { sender = reader.sender; retained_message = none };
  found = refl;
  attached = refl;
  live = refl;
}

abbrev common : Common env
common = record { shared = shared_by_two; queue = []; bq = [] }

shared_by_two-IsValid : IsValid env view shared_by_two
shared_by_two-IsValid = subscribe-IsValid env view laws "a" one_topic one_topic-IsValid

abbrev three : System env
three = record { common = common; tasks = (subscriber ∷ second ∷ []) ++ publisher ∷ [] }

three-IsSystem : IsSystem env view three.common three.tasks
three-IsSystem =
    append-IsSystem env view laws common (subscriber ∷ second ∷ []) publisher refl (record {
      valid = shared_by_two-IsValid;
      worlds = (
        record {
          valid = shared_by_two-IsValid;
          sorted = (tt, tt);
          subscribed =
              λ f r e. rw ((only reader f r e).0, (only reader f r e).1) first_reader_lives;
        },
        (
          record {
            valid = shared_by_two-IsValid;
            sorted = (tt, tt);
            subscribed = λ f r e.
                rw ((only second_reader f r e).0, (only second_reader f r e).1) second_reader_lives;
          },
          tt,
        ),
      );
      apart = (
        (
          λ f r e g e'.
              let same = sym (only reader f r e).1 ∙ (only second_reader g r e').1 in
              omega (arith, ap (λ x. x.id) same),
          tt,
        ),
        (tt, tt),
      );
    })

abbrev both_subscribers : List (Subscriber env)
both_subscribers =
    record { number = 0; known = subscriber; reader = reader }
    ∷ record { number = 1; known = second; reader = second_reader }
    ∷ []

waiting_first : IsIdle env view common "a" reader subscriber
unfolding Topics.subscribe Topics.add Topics.new Topics.put get BTreeMap.insert
waiting_first = record { running = refl; one = refl; empty = refl; none_missed = refl }

waiting_second : IsIdle env view common "a" second_reader second
unfolding Topics.subscribe Topics.add Topics.new Topics.put get BTreeMap.insert
waiting_second = record { running = refl; one = refl; empty = refl; none_missed = refl }

serve-fan_out_example :
    All
      (HasGot env view
        (λ x. x)
        (plain "a" 5)
        "a"
        (serve env example_net
          (task 2 (read (48 ∷ 5 ∷ [])) ∷ map (turn env) both_subscribers)
          three))
      both_subscribers
unfolding decode
serve-fan_out_example =
    serve-fan_out env view laws example_io-IsConnected (λ x. x) example_io-IsStream example_net 2
      (48 ∷ 5 ∷ []) (plain "a" 5) three publisher both_subscribers (omega arith) three-IsSystem refl
      refl refl (((λ e. omega (arith, e)), tt), (tt, tt))
      (
        ((λ e. omega (arith, e)), refl, waiting_first),
        (((λ e. omega (arith, e)), refl, waiting_second), tt),
      )
