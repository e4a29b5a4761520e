-- ===== src/Broadcast/Reference/Laws.antt =====
-- The laws of the reference hub.
use mcloudtt.Prelude.{
  ℕ, zero, suc, ◌<◌, ◌≡◌, ◌≢◌, refl, Bool, true, false, arith, Bool-cases, inl, inr,
}
use mcloudtt.Broadcast.{IsBroadcast}
use mcloudtt.Broadcast.Reference.{Handle, Reader, Hub, owned_by, any_below, hub, hub_view, is_live}

any_below_of : (n : ℕ) (p : ℕ → Bool) (i : ℕ) → i < n → p i ≡ true → any_below n p ≡ true
any_below_of zero p i h e = absurd (omega arith)
any_below_of (suc n) p i h e = ground (arith, any_below_of n p i)

any_below_inv : (n : ℕ) (p : ℕ → Bool) → any_below n p ≡ true → (i : ℕ) × (i < n) × (p i ≡ true)
any_below_inv zero p e = cc
any_below_inv (suc n) p e = elim (Bool-cases (p n)) [
  | inl here ↦ (n, omega arith, here)
  | inr there ↦ let (i, lt, found) = any_below_inv n p (ground arith) in (i, omega arith, found)
]

-- With no live receiver of its own a sender owns no slot.
no_owner :
    (M : Type 0) (s : Handle) (h : Hub M)
    → ((r : Reader) → is_live r h ≡ true → r.sender ≢ s)
    → any_below h.next (λ i. owned_by s (h.slots i)) ≡ false
no_owner M s h f = elim (Bool-cases (any_below h.next (λ i. owned_by s (h.slots i)))) [
  | inl e ↦
      let (i, lt, found) = any_below_inv h.next (λ i. owned_by s (h.slots i)) e in
      absurd (f (record { id = i; sender = s }) (ground arith) refl)
  | inr e ↦ e
]

pub hub-IsBroadcast : (M : Type 0) → IsBroadcast (hub M) (hub_view M)
hub-IsBroadcast M = record {
  channel_new = λ n h. ground arith;
  channel_known = λ n h. ground arith;
  channel_fresh = λ n h. ground arith;
  channel_capacity = λ n h. ground arith;
  channel_only = λ n h r ne d. ground arith;
  channel_keeps = λ n h r l. ground arith;
  channel_keeps_known = λ n h s k. ground arith;
  subscribe_fresh = λ s h k. ground arith;
  subscribe_keeps = λ s h r l. ground arith;
  subscribe_keeps_known = λ s h s' k. ground arith;
  send_delivers =
      λ s m h r l e. ground (arith, any_below_of h.next (λ i. owned_by s (h.slots i)) r.id);
  send_fails = λ s m h f. no_owner M s h f;
  send_live = λ s m h r. ground arith;
  send_keeps = λ s m h r l e. ground arith;
  send_keeps_known = λ s m h s' k. ground arith;
  is_empty_iff = λ r h l. ground arith;
  recv_message = λ r h m ms l z e. ground arith;
  recv_lagged = λ r h l z. ground arith;
  recv_live = λ r h r'. ground arith;
  recv_keeps = λ r h r' l l' ne. ground arith;
  recv_keeps_known = λ r h s k. ground arith;
  drop_receiver_dead = λ r h. ground arith;
  drop_receiver_stays_dead = λ r h r' d. ground arith;
  drop_receiver_keeps = λ r h r' l l' ne. ground arith;
  drop_receiver_keeps_known = λ r h s k. ground arith;
  drop_sender_keeps = λ s h r l. ground arith;
  drop_sender_keeps_known = λ s h s' k ne. ground arith;
}
