-- ===== src/Subscription.antt =====
-- homecontrol/Subscription.cpp and ISubscribe.h. A runtime is named by its place in the list of the
-- thread manager, which stands for the address that the source compares.
pub mod Laws
use homecontrol_server.Common.{
  ℕ, Bool, true, false, ◌&&◌, ◌||◌, List, [], ◌∷◌, ◌++◌, ◌==◌, if◌then◌else◌,
}
use homecontrol_server.Data.Meta.{MessageId, id_eq}

pub record SubscriptionData : Type 0 where
  pub id : MessageId
  pub runtime : ℕ

abbrev pub subscription_eq : SubscriptionData → SubscriptionData → Bool
subscription_eq s t = id_eq s.id t.id && s.runtime == t.runtime

-- `std::find` over the subscribers, compared with `end()`.
unfoldable pub is_subscribed : List SubscriptionData → SubscriptionData → Bool
is_subscribed [] s = false
is_subscribed (t ∷ ts) s = subscription_eq t s || is_subscribed ts s

unfoldable pub subscribe : List SubscriptionData → SubscriptionData → List SubscriptionData
unfolding is_subscribed
subscribe subscribers s = if is_subscribed subscribers s then subscribers else subscribers ++ s ∷ []

-- The loop of `FindSubscribers`, with the vector that it fills.
collect : MessageId → List SubscriptionData → List ℕ → List ℕ
collect id [] found = found
collect id (t ∷ ts) found = collect id ts (if id_eq t.id id then found ++ t.runtime ∷ [] else found)

unfoldable pub find_subscribers : List SubscriptionData → MessageId → List ℕ
unfolding collect
find_subscribers subscribers id = collect id subscribers []
