-- ===== src/Client/Invariant/Loop.antt =====
-- The invariant and the event loop (src/tcp_handling.rs).
use mcloudtt.Prelude.{String, List}
use mcloudtt.Broadcast.{View, IsBroadcast}
use mcloudtt.Env.{Env}
use mcloudtt.Topics
use mcloudtt.Topics.Invariant.{publish-IsValid}
use mcloudtt.Topics.Delivery.{publish-Reads}
use mcloudtt.Client.State.{World}
use mcloudtt.Client.Connection.{Event, iterate, handle_raw_tcp_stream}
use mcloudtt.Client.Kept.{IsKept}
use mcloudtt.Client.Kept.Loop.{iterate-Kept, handle_raw_tcp_stream-Kept}
use mcloudtt.Client.Invariant.{IsWorld, Keeps, client-IsWorld}
use mcloudtt.Client.Invariant.Receivers.{
  recv-IsWorld, subscribe_concrete-IsWorld, unsubscribe_filter-IsWorld,
}

module _ (E : Env) (V : View E.bus) (L : IsBroadcast E.bus V) where
  -- The topics have moved on by a publication.
  pub published :
      (p : E.PublishPacket) (w : World E)
      → IsWorld E V w
      → IsWorld E V (record w { shared = (Topics.publish E p w.shared).1 })
  published p w i = record {
    valid = publish-IsValid E V L p w.shared i.valid;
    sorted = i.sorted;
    subscribed = λ f r e. publish-Reads E V L p w.shared r f i.valid (i.subscribed f r e);
  }

  pub IsWorld-IsKept : IsKept E (IsWorld E V)
  IsWorld-IsKept = record {
    silent = record {
      client = client-IsWorld E V;
      subscribes = subscribe_concrete-IsWorld E V L;
      unsubscribes = unsubscribe_filter-IsWorld E V L;
      receives = λ key r w e i. recv-IsWorld E V L r w i;
    };
    publishes = published;
  }

  pub iterate-IsWorld : (addr : String) (e : Event) → Keeps E V (iterate E addr e)
  iterate-IsWorld = iterate-Kept E (IsWorld E V) IsWorld-IsKept

  -- A connection that starts in a world that keeps the invariant: whatever it goes through, and
  -- however it ends, the invariant holds afterwards, that is, each topic has a channel of its own
  -- with room for 1024 messages, the map of receivers is sorted, and each receiver is live and of
  -- the channel of the topic that it stands for.
  pub handle_raw_tcp_stream-IsWorld :
      (addr : String) (es : List Event) → Keeps E V (handle_raw_tcp_stream E addr es)
  handle_raw_tcp_stream-IsWorld = handle_raw_tcp_stream-Kept E (IsWorld E V) IsWorld-IsKept
