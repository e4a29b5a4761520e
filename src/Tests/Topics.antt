-- ===== src/Tests/Topics.antt =====
-- src/topics.rs on small inputs.
use mathlib.Core.Path.{subst}
use text.Mathlib.TextEquality.{IsScalar-prop}
use mcloudtt.Prelude.{
  ℕ, ◌+◌, String, none, some, List, [], ◌∷◌, ◌++◌, refl, ◌≡◌, ◌≢◌, ◌≤◌, arith, length, eq_iff,
}
use mcloudtt.BTreeMap
use mcloudtt.BTreeMap.{get}
use mcloudtt.Error.{ok, err, topic_already_exists}
use mcloudtt.Topics.{
  Channel, Shared, publish, subscribe, add, put, new, send_to_topic, send_message, set_retained,
  get_retained_message,
}
use mcloudtt.Topics.Invariant.{IsValid, subscribe-IsValid}
use mcloudtt.Topics.Delivery.{Reads, Subscribed, subscribe-Subscribed}
use mcloudtt.Topics.Retained.{
  publish_all, last_retained, get_retained_message-publish_all, get_retained_message-add_existing,
}
use mcloudtt.Topics.History.{messages_on}
use mathlib.Core.Quot
use mcloudtt.Topics.Traces.{Swap, trace, publish_all-trace}
use mcloudtt.Tests.Setup.{env, view, laws, no_topics, plain, kept, Fields}

pub no_topics-IsValid : IsValid env view no_topics
unfolding get
no_topics-IsValid = record {
  sorted = tt;
  known = λ t c e. ground arith;
  roomy = λ t c e. ground arith;
  distinct = λ t u c d e. ground arith;
}

-- "a" has been subscribed to, and "b" has a retained message.
abbrev pub one_topic : Shared env
one_topic = (subscribe env "a" no_topics).1

abbrev pub two_topics : Shared env
two_topics = (publish env (kept "b" 9) one_topic).1

abbrev pub reader : env.Receiver
reader = record { id = 0; sender = record { id = 0; cap = 1024 } }

pub one_topic-IsValid : IsValid env view one_topic
one_topic-IsValid = subscribe-IsValid env view laws "a" no_topics no_topics-IsValid

pub subscribe_run : subscribe env "a" no_topics ≡ (ok reader, one_topic)
unfolding subscribe add new put get
subscribe_run = refl

pub reader-Reads : Reads env view reader "a" one_topic
reader-Reads =
    (subst (Subscribed env view "a" no_topics) subscribe_run
      (subscribe-Subscribed env view laws "a" no_topics no_topics-IsValid)).0

abbrev packets : List Fields
packets = plain "a" 1 ∷ kept "b" 2 ∷ kept "a" 3 ∷ plain "a" 4 ∷ []

short : length (messages_on env "a" packets) ≤ 1024
unfolding messages_on
short = omega arith

get_retained_message-publish_all_example :
    get_retained_message env "b" (publish_all env packets two_topics)
    ≡ last_retained env "b" (get_retained_message env "b" two_topics) packets
get_retained_message-publish_all_example =
    get_retained_message-publish_all env packets "b" two_topics

abbrev pub b_channel : Channel env
b_channel = record { sender = record { id = 1; cap = 1024 }; retained_message = some (kept "b" 9) }

pub b_found : get "b" two_topics.topics ≡ some b_channel
unfolding publish send_to_topic send_message set_retained subscribe add new put get BTreeMap.insert
    mcloudtt.Prelude.Order.str_ltb
b_found = refl

get_retained_message-add_existing_example :
    ((add env "b" two_topics).0 ≡ err (topic_already_exists "b"))
    × (get_retained_message env "b" (add env "b" two_topics).1 ≡ none)
get_retained_message-add_existing_example =
    get_retained_message-add_existing env "b" two_topics b_channel b_found

fields_set : IsSet Fields
fields_set = hlevel IsScalar-prop

-- Two orders of the same packets.
abbrev a_first : List Fields
a_first = plain "a" 1 ∷ kept "b" 2 ∷ []

abbrev b_first : List Fields
b_first = kept "b" 2 ∷ plain "a" 1 ∷ []

same_trace : trace env a_first ≡ trace env b_first
same_trace =
    Quot.sound (Swap.here (plain "a" 1) (kept "b" 2) [] (λ e. ground (arith, (eq_iff "a" "b").1 e)))

publish_all-trace_example :
    (get_retained_message env "b" (publish_all env a_first one_topic)
      ≡ get_retained_message env "b" (publish_all env b_first one_topic))
    × ((r : env.Receiver)
        → Reads env view r "b" one_topic
        → (view.unread r (publish_all env a_first one_topic).hub
            ≡ view.unread r (publish_all env b_first one_topic).hub)
          × (view.missed r (publish_all env a_first one_topic).hub
              ≡ view.missed r (publish_all env b_first one_topic).hub))
publish_all-trace_example =
    publish_all-trace env view laws a_first b_first one_topic fields_set one_topic-IsValid
      same_trace "b"
