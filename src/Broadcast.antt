-- ===== src/Broadcast.antt =====
-- `tokio::sync::broadcast`: the interface that the broker uses, and what its documentation promises.
-- The hub is the state of all channels; a sender or receiver is a handle.
pub mod Reference
use mcloudtt.Prelude.{
  last, ℕ, ◌+◌, ◌-◌, ◌≤◌, ◌≡◌, ◌≢◌, ◌↔◌, Bool, true, false, List, [], ◌∷◌, ◌++◌, length, drop,
}

pub data Received (M : Type 0) : Type 0 where
  message : M → Received M
  -- `RecvError::Lagged` with the number of messages that were overwritten
  lagged : ℕ → Received M
  -- `RecvError::Closed`
  closed : Received M

pub record Broadcast (M : Type 0) : Type 1 where
  pub Hub : Type 0
  pub Sender : Type 0
  pub Receiver : Type 0
  pub channel : ℕ → Hub → Sender × Receiver × Hub
  -- `Sender::subscribe`
  pub subscribe : Sender → Hub → Receiver × Hub
  -- `Sender::send`; true is `Ok`.
  pub send : Sender → M → Hub → Bool × Hub
  pub is_empty : Receiver → Hub → Bool
  -- `Receiver::recv` at a moment when it does not wait
  pub recv : Receiver → Hub → Received M × Hub
  pub drop_sender : Sender → Hub → Hub
  pub drop_receiver : Receiver → Hub → Hub

-- What an observer of the hub can tell.
pub record View {M : Type 0} (B : Broadcast M) : Type 0 where
  -- The handle has been made.
  pub known : B.Sender → B.Hub → Bool
  -- The handle has been made, and not been dropped.
  pub live : B.Receiver → B.Hub → Bool
  pub sender_of : B.Receiver → B.Sender
  pub capacity : B.Sender → ℕ
  -- What a receiver has still to read, oldest first, and how many messages it has missed.
  pub unread : B.Receiver → B.Hub → List M
  pub missed : B.Receiver → B.Hub → ℕ

module _ {M : Type 0} (B : Broadcast M) (V : View B) where
  -- Nothing changes for a receiver.
  abbrev pub Keeps : B.Receiver → B.Hub → B.Hub → Type 0
  Keeps r h h' =
      (V.live r h' ≡ V.live r h) × (V.unread r h' ≡ V.unread r h) × (V.missed r h' ≡ V.missed r h)

  -- A receiver that has just been made for a sender.
  abbrev pub Fresh : B.Receiver → B.Sender → B.Hub → B.Hub → Type 0
  Fresh r s h h' =
      (V.live r h ≡ false)
      × (V.live r h' ≡ true)
      × (V.sender_of r ≡ s)
      × (V.unread r h' ≡ [])
      × (V.missed r h' ≡ 0)

  pub record IsBroadcast : Type 0 where
    -- `channel(n)` makes a new sender and a new receiver, and touches no other channel.
    pub channel_new : (n : ℕ) (h : B.Hub) → V.known (B.channel n h).0 h ≡ false
    pub channel_known : (n : ℕ) (h : B.Hub) → V.known (B.channel n h).0 (B.channel n h).2 ≡ true
    pub channel_fresh :
        (n : ℕ) (h : B.Hub) → Fresh (B.channel n h).1 (B.channel n h).0 h (B.channel n h).2
    pub channel_capacity : (n : ℕ) (h : B.Hub) → n ≤ V.capacity (B.channel n h).0
    -- No receiver comes to life but the new one.
    pub channel_only :
        (n : ℕ) (h : B.Hub) (r : B.Receiver)
        → r ≢ (B.channel n h).1
        → V.live r h ≡ false
        → V.live r (B.channel n h).2 ≡ false
    pub channel_keeps :
        (n : ℕ) (h : B.Hub) (r : B.Receiver) → V.live r h ≡ true → Keeps r h (B.channel n h).2
    pub channel_keeps_known :
        (n : ℕ) (h : B.Hub) (s : B.Sender) → V.known s h ≡ true → V.known s (B.channel n h).2 ≡ true
    -- `subscribe` makes a new receiver, which reads what is sent from then on.
    pub subscribe_fresh :
        (s : B.Sender) (h : B.Hub)
        → V.known s h ≡ true
        → Fresh (B.subscribe s h).0 s h (B.subscribe s h).1
    pub subscribe_keeps :
        (s : B.Sender) (h : B.Hub) (r : B.Receiver)
        → V.live r h ≡ true
        → Keeps r h (B.subscribe s h).1
    pub subscribe_keeps_known :
        (s : B.Sender) (h : B.Hub) (s' : B.Sender)
        → V.known s' h ≡ true
        → V.known s' (B.subscribe s h).1 ≡ true
    -- `send` reaches every live receiver of the channel, and fails if there is none.
    pub send_delivers :
        (s : B.Sender) (m : M) (h : B.Hub) (r : B.Receiver)
        → V.live r h ≡ true
        → V.sender_of r ≡ s
        → ((B.send s m h).0 ≡ true)
          × (V.unread r (B.send s m h).1 ≡ last (V.capacity s) (V.unread r h ++ m ∷ []))
          × (V.missed r (B.send s m h).1
              ≡ V.missed r h + (length (V.unread r h) + 1 - V.capacity s))
    pub send_fails :
        (s : B.Sender) (m : M) (h : B.Hub)
        → ((r : B.Receiver) → V.live r h ≡ true → V.sender_of r ≢ s)
        → (B.send s m h).0 ≡ false
    pub send_live :
        (s : B.Sender) (m : M) (h : B.Hub) (r : B.Receiver) → V.live r (B.send s m h).1 ≡ V.live r h
    pub send_keeps :
        (s : B.Sender) (m : M) (h : B.Hub) (r : B.Receiver)
        → V.live r h ≡ true
        → V.sender_of r ≢ s
        → Keeps r h (B.send s m h).1
    pub send_keeps_known :
        (s : B.Sender) (m : M) (h : B.Hub) (s' : B.Sender)
        → V.known s' h ≡ true
        → V.known s' (B.send s m h).1 ≡ true
    pub is_empty_iff :
        (r : B.Receiver) (h : B.Hub)
        → V.live r h ≡ true
        → (B.is_empty r h ≡ true) ↔ (V.unread r h ≡ [])
    -- `recv` first reports what was overwritten, and then takes the oldest message.
    pub recv_message :
        (r : B.Receiver) (h : B.Hub) (m : M) (ms : List M)
        → V.live r h ≡ true
        → V.missed r h ≡ 0
        → V.unread r h ≡ m ∷ ms
        → ((B.recv r h).0 ≡ message m)
          × (V.unread r (B.recv r h).1 ≡ ms)
          × (V.missed r (B.recv r h).1 ≡ 0)
    pub recv_lagged :
        (r : B.Receiver) (h : B.Hub)
        → V.live r h ≡ true
        → V.missed r h ≢ 0
        → ((B.recv r h).0 ≡ lagged (V.missed r h))
          × (V.unread r (B.recv r h).1 ≡ V.unread r h)
          × (V.missed r (B.recv r h).1 ≡ 0)
    pub recv_live :
        (r : B.Receiver) (h : B.Hub) (r' : B.Receiver) → V.live r' (B.recv r h).1 ≡ V.live r' h
    pub recv_keeps :
        (r : B.Receiver) (h : B.Hub) (r' : B.Receiver)
        → V.live r h ≡ true
        → V.live r' h ≡ true
        → r' ≢ r
        → Keeps r' h (B.recv r h).1
    pub recv_keeps_known :
        (r : B.Receiver) (h : B.Hub) (s : B.Sender)
        → V.known s h ≡ true
        → V.known s (B.recv r h).1 ≡ true
    pub drop_receiver_dead : (r : B.Receiver) (h : B.Hub) → V.live r (B.drop_receiver r h) ≡ false
    pub drop_receiver_stays_dead :
        (r : B.Receiver) (h : B.Hub) (r' : B.Receiver)
        → V.live r' h ≡ false
        → V.live r' (B.drop_receiver r h) ≡ false
    pub drop_receiver_keeps :
        (r : B.Receiver) (h : B.Hub) (r' : B.Receiver)
        → V.live r h ≡ true
        → V.live r' h ≡ true
        → r' ≢ r
        → Keeps r' h (B.drop_receiver r h)
    pub drop_receiver_keeps_known :
        (r : B.Receiver) (h : B.Hub) (s : B.Sender)
        → V.known s h ≡ true
        → V.known s (B.drop_receiver r h) ≡ true
    pub drop_sender_keeps :
        (s : B.Sender) (h : B.Hub) (r : B.Receiver)
        → V.live r h ≡ true
        → Keeps r h (B.drop_sender s h)
    pub drop_sender_keeps_known :
        (s : B.Sender) (h : B.Hub) (s' : B.Sender)
        → V.known s' h ≡ true
        → s' ≢ s
        → V.known s' (B.drop_sender s h) ≡ true
