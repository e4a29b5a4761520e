-- ===== src/Client/Invariant.antt =====
-- The invariant of a connection (src/tcp_handling.rs): its receivers read the topics they stand for.
pub mod Receivers
pub mod Loop
use mcloudtt.Prelude.{String, some, ◌≡◌}
use mcloudtt.Error.{Action, Preserves}
use mcloudtt.BTreeMap.{get}
use mcloudtt.BTreeMap.Laws.{IsSorted}
use mcloudtt.Broadcast.{View}
use mcloudtt.Env.{Env}
use mcloudtt.Topics.Invariant.{IsValid}
use mcloudtt.Topics.Delivery.{Reads}
use mcloudtt.Client.State.{World}

module _ (E : Env) (V : View E.bus) where
  pub record IsWorld (w : World E) : Type 0 where
    pub valid : IsValid E V w.shared
    pub sorted : IsSorted w.client.receivers
    pub subscribed :
        (f : String) (r : E.Receiver) → get f w.client.receivers ≡ some r → Reads E V r f w.shared

  -- An action that keeps the invariant, however it ends.
  abbrev pub Keeps : {A : Type 0} → Action (World E) A → Type 0
  Keeps = Preserves IsWorld

  -- Only the map of receivers and the topics matter.
  pub client-IsWorld :
      (w w' : World E)
      → w'.shared ≡ w.shared
      → w'.client.receivers ≡ w.client.receivers
      → IsWorld w
      → IsWorld w'
  client-IsWorld w w' s r i = record {
    valid = rw s i.valid;
    sorted = rw r i.sorted;
    subscribed = λ f x e. rw s (i.subscribed f x (rw r at e));
  }
