-- ===== src/Topics/Handler.antt =====
-- include/common/SubscriptionHandler.h. A callback acts on the node and on what its user pointer and everything else reach,
-- the machine; `none` is an abort in it. Subscriber::unsubscribe does nothing.
use text.Mathlib.Text.{◌==◌ as str_eq}
use r2dtu_attention.Common.{
  ℕ, zero, suc, Option, none, some, String, List, [], ◌∷◌, ◌++◌, if◌then◌else◌, ◌>>=◌,
}
use r2dtu_attention.Message.{Packet}
use r2dtu_attention.Store.Redis.{Redis}
use r2dtu_attention.Topics.{Node, next, subscribe}

-- Subscription
pub record Subscription {ℓ} (M : Type ℓ) : Type ℓ where
  pub subscriber : ℕ
  pub callback : Packet → Node × M → Option (Node × M)
  pub topic : String

-- SubscriptionHandler::subscribe, on the handler's subs
unfoldable pub add_subscription {ℓ} :
    {M : Type ℓ} (redis : Redis)
    → Redis.Server redis
    → Node
    → List (Subscription M)
    → String
    → String
    → (Packet → Node × M → Option (Node × M))
    → Option ((List (Subscription M) × Node) × Redis.Server redis)
unfolding subscribe
add_subscription redis s n subs type topic callback = do
  ((a, n'), s') ← subscribe redis s n type topic
  some ((subs ++ record { subscriber = a; callback = callback; topic = topic } ∷ [], n'), s')

-- SubscriptionHandler::unsubscribe: the first subscription of the topic goes.
unfoldable pub unsubscribe {ℓ} :
    {M : Type ℓ} → List (Subscription M) → String → List (Subscription M)
unsubscribe [] topic = []
unsubscribe (sub ∷ subs) topic =
    if str_eq topic sub.topic then subs else sub ∷ unsubscribe subs topic

-- The inner loop of tick. A callback may publish what its own subscription reads, so the loop need not end.
unfoldable pub read_all {ℓ} : {M : Type ℓ} → ℕ → Subscription M → Node × M → Option (Node × M)
unfolding next
read_all zero sub (n, m) = none
read_all (suc fuel) sub (n, m) = next n sub.subscriber >>= λ (opt, n'). elim opt [
  | none ↦ some (n', m)
  | some msg ↦ sub.callback msg (n', m) >>= read_all fuel sub
]

-- SubscriptionHandler::tick
unfoldable pub tick {ℓ} : {M : Type ℓ} → ℕ → List (Subscription M) → Node × M → Option (Node × M)
unfolding read_all
tick fuel [] x = some x
tick fuel (sub ∷ subs) x = read_all fuel sub x >>= tick fuel subs
