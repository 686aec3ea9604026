-- ===== src/Platform/WorkflowService/Interface.antt =====
-- The laws that the workflow service needs of its persistence, and its awaited calls taken apart.
use ai_software_engineering.Prelude.{
  String, ◌≡◌, refl, sym, ap, ◌⊎◌, inl, inr, Option, some, if◌then◌else◌, Result, ok, err,
  ok-injective,
}
use ai_software_engineering.Contracts.Errors.{Failure}
use ai_software_engineering.Contracts.Envelopes.{JournalAppendBatch, PersistenceCommitReceipt}
use ai_software_engineering.Kernel.{CommandIdentity}
use ai_software_engineering.Persistence.Commit.{identity_of}
use ai_software_engineering.Platform.WorkflowService.{WorkflowPersistence, ◌then◌}

-- What the service needs of its persistence. `Committed i r w`: in the world `w`, the command with the
-- identity `i` has the receipt `r` for good.
pub record IsJournal {W : Type 0} (persistence_of : WorkflowPersistence W)
    (Committed : CommandIdentity → PersistenceCommitReceipt → W → Type 0) (Sound : W → Type 0)
    : Type 0 where
  pub looked :
      (i : CommandIdentity) (r : PersistenceCommitReceipt) (w : W)
      → Sound w
      → (persistence_of.lookup_command_receipt i w).0 ≡ ok (some r)
      → Committed i r (persistence_of.lookup_command_receipt i w).1
  pub found :
      (i : CommandIdentity) (r : PersistenceCommitReceipt) (o : Option PersistenceCommitReceipt)
      (w : W)
      → Sound w
      → Committed i r w
      → (persistence_of.lookup_command_receipt i w).0 ≡ ok o
      → o ≡ some r
  pub commits :
      (batch : JournalAppendBatch) (r : PersistenceCommitReceipt) (w : W)
      → Sound w
      → (persistence_of.commit batch w).0 ≡ ok r
      → Committed (identity_of batch) r (persistence_of.commit batch w).1
  pub sound_lookup :
      (i : CommandIdentity) (w : W) → Sound w → Sound (persistence_of.lookup_command_receipt i w).1
  pub sound_read :
      (type id : String) (w : W) → Sound w → Sound (persistence_of.read_events type id w).1
  pub sound_commit :
      (batch : JournalAppendBatch) (w : W) → Sound w → Sound (persistence_of.commit batch w).1
  pub keeps_lookup :
      (i j : CommandIdentity) (r : PersistenceCommitReceipt) (w : W)
      → Sound w
      → Committed i r w
      → Committed i r (persistence_of.lookup_command_receipt j w).1
  pub keeps_read :
      (i : CommandIdentity) (r : PersistenceCommitReceipt) (type id : String) (w : W)
      → Sound w
      → Committed i r w
      → Committed i r (persistence_of.read_events type id w).1
  pub keeps_commit :
      (i : CommandIdentity) (r : PersistenceCommitReceipt) (batch : JournalAppendBatch) (w : W)
      → Sound w
      → Committed i r w
      → Committed i r (persistence_of.commit batch w).1

-- An awaited call that succeeds, taken apart.
pub then-ok {ℓ κ} :
    {A : Type ℓ} {B : Type κ} {W : Type 0} (p : Result Failure A × W)
    (f : A → W → Result Failure B × W) {b : B} {w : W}
    → (p then f) ≡ (ok b, w)
    → (a : A) × (p.0 ≡ ok a) × (f a p.1 ≡ (ok b, w))
then-ok (ok a, w) f h = (a, refl, h)
then-ok (err e, w) f h = cc h

pub then-found {ℓ κ} :
    {A : Type ℓ} {B : Type κ} {W : Type 0} (p : Result Failure A × W)
    (f : A → W → Result Failure B × W) {a : A}
    → p.0 ≡ ok a
    → (p then f) ≡ f a p.1
then-found (ok a, w) f h = ap (λ a. f a w) (ok-injective h)
then-found (err e, w) f h = cc h

pub then_cases {ℓ κ} :
    {A : Type ℓ} {B : Type κ} {W : Type 0} (p : Result Failure A × W)
    (f : A → W → Result Failure B × W) {q : Result Failure B × W}
    → (p then f) ≡ q
    → ((a : A) × (p.0 ≡ ok a) × (f a p.1 ≡ q)) ⊎ ((e : Failure) × (q ≡ (err e, p.1)))
then_cases (ok a, w) f h = inl (a, refl, h)
then_cases (err e, w) f h = inr (e, sym h)
