-- ===== src/Subscriptions/Undisturbed.antt =====
-- What subscribe does where no other thread changes the registry while the object resolves.
use cppgraphqlgen.Base.{ℕ, none, some, ◌≡◌, ltb}
use cppgraphqlgen.SortedMap.{find}
use cppgraphqlgen.Subscriptions.{SubscriptionData, Registry, add_registration}
use cppgraphqlgen.Subscriptions.Requests.{Reply, returned, failed}

module _ {ℓ} {R : Type ℓ} where
  -- A failure leaves both maps as they were; a key is new, and its subscription is registered.
  abbrev pub SubscribesOrNot : Registry R → Registry R × Reply ℕ → Type ℓ
  SubscribesOrNot r (r', failed failure) =
      (r'.subscriptions ≡ r.subscriptions) × (r'.listeners ≡ r.listeners)
  SubscribesOrNot r (r', returned key) =
      (find ltb key r.subscriptions ≡ none)
      × (d : SubscriptionData R) × (find ltb key r'.subscriptions ≡ some (key, d))
      × (r' ≡ (add_registration d r).0)
