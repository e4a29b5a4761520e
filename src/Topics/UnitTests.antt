-- ===== src/Topics/UnitTests.antt =====
-- The unit test of src/topics.rs, as a function that says whether it passes.
use mcloudtt.Prelude.{Bool, true, false, ◌&&◌, Option, none, some, [], length, eqb, ◌≡◌, refl}
use mcloudtt.Error.{Result, ok, err, panic, topic_already_exists}
use mcloudtt.BTreeMap.{get, insert}
use mcloudtt.Env.{Env}
use mcloudtt.Topics.{Channel, add, put, new}

module _ (E : Env) where
  -- `matches!(…, Err(MCloudError::TopicAlreadyExists(_)))`
  unfoldable is_existing : Result E.Receiver → Bool
  is_existing (err (topic_already_exists t)) = true
  is_existing _ = false

  unfoldable retains_nothing : Option (Channel E) → Bool
  retains_nothing none = false
  retains_nothing (some c) = elim c.retained_message [ none ↦ true | some p ↦ false ]

  -- The first `add` is unwrapped, and its receiver dropped.
  unfoldable pub test_add : E.Hub → Bool
  unfolding is_existing retains_nothing
  test_add h =
      let (r, s) = add E "test" (record { topics = []; hub = h }) in
      elim r [
        | ok receiver ↦
            eqb (length s.topics) 1
            && (retains_nothing (get "test" s.topics)
                && is_existing
                    (add E "test" (record s { hub = E.bus.drop_receiver receiver s.hub })).0)
        | err e ↦ false
        | panic ↦ false
      ]

  pub test_add-passes : (h : E.Hub) → test_add h ≡ true
  unfolding test_add add put new get insert
  test_add-passes h = refl
