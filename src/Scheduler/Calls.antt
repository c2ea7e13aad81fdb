-- ===== src/Scheduler/Calls.antt =====
-- A number of calls of `dequeue` in a row, up to the first that throws.
use hqts.Base.{ℕ, zero, suc, ◌≡◌, refl, List, [], ◌∷◌, Result, ok, err, ◌>>=◌}
use hqts.Packet.{PacketDescriptor}
use hqts.Scheduler.Interface.{Scheduler}

-- What a call returned, and what the calls after it left and returned.
abbrev pub followed_by :
    {S : Type 0}
    → S × Result PacketDescriptor
    → S × Result (List PacketDescriptor)
    → S × Result (List PacketDescriptor)
followed_by (y, ok p) (z, rs) = (z, rs >>= λ ps. ok (p ∷ ps))
followed_by (y, err e) rest = (y, err e)

module _ {S : Type 0} ⦃s : Scheduler S⦄ where
  pub dequeues : ℕ → S → S × Result (List PacketDescriptor)
  dequeues zero x = (x, ok [])
  dequeues (suc n) x = followed_by (s.dequeue x) (dequeues n (s.dequeue x).0)

  pub dequeues-zero : (x : S) → dequeues 0 x ≡ (x, ok [])
  unfolding dequeues
  dequeues-zero x = refl

  pub dequeues-suc :
      (n : ℕ) (x y z : S) (p : PacketDescriptor) (ps : List PacketDescriptor)
      → s.dequeue x ≡ (y, ok p)
      → dequeues n y ≡ (z, ok ps)
      → dequeues (suc n) x ≡ (z, ok (p ∷ ps))
  unfolding dequeues
  dequeues-suc n x y z p ps e f = rw e (rw f refl)

  -- The scheduler after `n` calls of `dequeue`, whether they throw or not.
  pub after : ℕ → S → S
  after zero x = x
  after (suc n) x = after n (s.dequeue x).0

  pub after-zero : (x : S) → after 0 x ≡ x
  unfolding after
  after-zero x = refl

  pub after-suc : (n : ℕ) (x : S) → after (suc n) x ≡ after n (s.dequeue x).0
  unfolding after
  after-suc n x = refl
