-- ===== src/Client/Connection/Ends.antt =====
-- The ways in which the loop of a connection (src/tcp_handling.rs) may end.
use mcloudtt.Prelude.{ℕ, String, Option, none, some, ◌≡◌, Bool, true, false, if◌then◌else◌}
use mcloudtt.Error.{
  MCloudError, client_error, unexpected_client_disconnected, could_not_write_to_stream, io_error,
  Result, ok, err, panic, Action, continue, unwrap, ◌>>=◌,
}
use mcloudtt.Client.Connection.{wrapped}

-- The specification: the connection is named, or the stream failed.
unfoldable pub Closing : String → MCloudError → Type 0
Closing addr (client_error a) = a ≡ addr
Closing addr (unexpected_client_disconnected a) = a ≡ addr
Closing addr (could_not_write_to_stream t) = Unit
Closing addr (io_error t) = Unit
Closing addr _ = ⊥

abbrev pub Ends : {A : Type 0} → String → Result A → Type 0
Ends addr (ok a) = Unit
Ends addr (err e) = Closing addr e
Ends addr panic = Unit

module _ (addr : String) where
  pub continue-Ends :
      {S A B : Type 0} (r : Result A) (f : A → Action S B) (s : S)
      → Ends addr r
      → ((a : A) (x : S) → Ends addr (f a x).0)
      → Ends addr (continue r f s).0
  continue-Ends (ok a) f s h k = k a s
  continue-Ends (err e) f s h k = h
  continue-Ends panic f s h k = tt

  -- The rule for a bind.
  pub >>=-Ends :
      {S A B : Type 0} (m : Action S A) (f : A → Action S B)
      → ((x : S) → Ends addr (m x).0)
      → ((a : A) (x : S) → Ends addr (f a x).0)
      → (s : S) → Ends addr ((m >>= f) s).0
  >>=-Ends m f h k s = continue-Ends (m s).0 f (m s).1 (h s) k

  pub unwrap-Ends : {S A : Type 0} (o : Option A) (s : S) → Ends addr (unwrap {S = S} o s).0
  unwrap-Ends none s = tt
  unwrap-Ends (some a) s = tt

  pub if-Ends :
      {S A : Type 0} (b : Bool) (m n : Action S A)
      → ((x : S) → Ends addr (m x).0)
      → ((x : S) → Ends addr (n x).0)
      → (s : S) → Ends addr ((if b then m else n) s).0
  if-Ends true m n h k s = h s
  if-Ends false m n h k s = k s

  pub wrapped-Ends : (b c : Bool) (n : ℕ) → Ends addr (wrapped b c n)
  unfolding wrapped
  wrapped-Ends false c n = tt
  wrapped-Ends true true n = tt
  wrapped-Ends true false n = tt
