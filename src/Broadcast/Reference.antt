-- ===== src/Broadcast/Reference.antt =====
-- A hub that can be run: numbered handles, and a bounded queue for each receiver.
pub mod Laws
use mcloudtt.Prelude.{
  last, ℕ, zero, suc, ◌+◌, ◌-◌, Bool, true, false, ◌&&◌, ◌||◌, List, [], ◌∷◌, ◌++◌, Option, none,
  some, length, ltb, eqb, if◌then◌else◌,
}
use mcloudtt.Broadcast.{Received, message, lagged, closed, Broadcast, View}

pub record Handle : Type 0 where
  pub id : ℕ
  pub cap : ℕ

pub record Reader : Type 0 where
  pub id : ℕ
  pub sender : Handle

module _ (M : Type 0) where
  pub record Slot : Type 0 where
    pub owner : Handle
    pub queue : List M
    pub skipped : ℕ

  pub record Hub : Type 0 where
    pub next : ℕ
    pub slots : ℕ → Option Slot

abbrev pub same : Handle → Handle → Bool
same a b = eqb a.id b.id && eqb a.cap b.cap

abbrev pub any_below : ℕ → (ℕ → Bool) → Bool
any_below zero p = false
any_below (suc n) p = p n || any_below n p

module _ {M : Type 0} where
  abbrev update : (ℕ → Option (Slot M)) → ℕ → Option (Slot M) → ℕ → Option (Slot M)
  update f i v j = if eqb j i then v else f j

  abbrev fresh_slot : Handle → Slot M
  fresh_slot s = record { owner = s; queue = []; skipped = 0 }

  abbrev pub join : Handle → Hub M → Reader × Hub M
  join s h = (
    record { id = h.next; sender = s },
    record { next = h.next + 1; slots = update h.slots h.next (some (fresh_slot s)) },
  )

  abbrev pub open_channel : ℕ → Hub M → Handle × Reader × Hub M
  open_channel n h =
      let s : Handle = record { id = h.next; cap = n } in let (r, h') = join s h in (s, r, h')

  abbrev pub owned_by : Handle → Option (Slot M) → Bool
  owned_by s none = false
  owned_by s (some x) = same x.owner s

  abbrev pub push : Handle → M → Option (Slot M) → Option (Slot M)
  push s m none = none
  push s m (some x) =
      if same x.owner s
      then some (record {
        owner = x.owner;
        queue = last s.cap (x.queue ++ m ∷ []);
        skipped = x.skipped + (length x.queue + 1 - s.cap);
      })
      else some x

  abbrev pub broadcast : Handle → M → Hub M → Bool × Hub M
  broadcast s m h = (
    any_below h.next (λ i. owned_by s (h.slots i)),
    record h { slots = λ i. push s m (h.slots i) },
  )

  abbrev pub slot_live : Reader → Option (Slot M) → Bool
  slot_live r x = owned_by r.sender x

  abbrev pub is_live : Reader → Hub M → Bool
  is_live r h = ltb r.id h.next && slot_live r (h.slots r.id)

  abbrev pub queue_of : Option (Slot M) → List M
  queue_of none = []
  queue_of (some x) = x.queue

  abbrev pub skipped_of : Option (Slot M) → ℕ
  skipped_of none = 0
  skipped_of (some x) = x.skipped

  abbrev pub take_next : Handle → List M → Received M × Slot M
  take_next s [] = (closed, fresh_slot s)
  take_next s (m ∷ ms) = (message m, record { owner = s; queue = ms; skipped = 0 })

  abbrev pub take_slot : Slot M → Received M × Slot M
  take_slot x =
      if eqb x.skipped 0
      then take_next x.owner x.queue
      else (lagged x.skipped, record x { skipped = 0 })

  abbrev pub receive_at : Reader → Option (Slot M) → Hub M → Received M × Hub M
  receive_at r none h = (closed, h)
  receive_at r (some x) h =
      let (m, x') = take_slot x in (m, record h { slots = update h.slots r.id (some x') })

  abbrev pub receive : Reader → Hub M → Received M × Hub M
  receive r h = receive_at r (h.slots r.id) h

  abbrev pub queue_empty : List M → Bool
  queue_empty [] = true
  queue_empty (m ∷ ms) = false

abbrev pub hub : (M : Type 0) → Broadcast M
hub M = record {
  Hub = Hub M;
  Sender = Handle;
  Receiver = Reader;
  channel = open_channel;
  subscribe = join;
  send = broadcast;
  is_empty = λ r h. queue_empty (queue_of (h.slots r.id));
  recv = receive;
  drop_sender = λ s h. h;
  drop_receiver = λ r h. record h { slots = update h.slots r.id none };
}

abbrev pub hub_view : (M : Type 0) → View (hub M)
hub_view M = record {
  known = λ s h. ltb s.id h.next;
  live = is_live;
  sender_of = λ r. r.sender;
  capacity = λ s. s.cap;
  unread = λ r h. queue_of (h.slots r.id);
  missed = λ r h. skipped_of (h.slots r.id);
}
