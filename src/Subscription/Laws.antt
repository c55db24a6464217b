-- ===== src/Subscription/Laws.antt =====
-- Who is found: every subscriber of an id, once.
use homecontrol_server.Common.{
  ℕ, suc, ◌+◌, ◌≡◌, refl, true, ◌&&◌, List, [], ◌∷◌, ◌++◌, arith, ◌==◌, if◌then◌else◌, not,
}
use homecontrol_server.Common.Int.{eq_ℤ_iff, eq_ℤ_refl}
use homecontrol_server.Data.Meta.{MessageId, id_eq, id_code}
use homecontrol_server.Subscription.{
  SubscriptionData, subscription_eq, is_subscribed, subscribe, collect, find_subscribers,
}

-- How often a runtime stands in a list of runtimes, and a subscription in a list of them.
unfoldable pub occurrences : ℕ → List ℕ → ℕ
occurrences r [] = 0
occurrences r (x ∷ xs) = if x == r then suc (occurrences r xs) else occurrences r xs

unfoldable pub entries : SubscriptionData → List SubscriptionData → ℕ
entries s [] = 0
entries s (t ∷ ts) = if subscription_eq t s then suc (entries s ts) else entries s ts

pub occurrences-append :
    (r : ℕ) (xs ys : List ℕ) → occurrences r (xs ++ ys) ≡ occurrences r xs + occurrences r ys
unfolding occurrences
occurrences-append r [] ys = omega arith
occurrences-append r (x ∷ xs) ys = ground (arith, occurrences-append r xs ys)

entries-append :
    (s : SubscriptionData) (ts us : List SubscriptionData)
    → entries s (ts ++ us) ≡ entries s ts + entries s us
unfolding entries
entries-append s [] us = omega arith
entries-append s (t ∷ ts) us = ground (arith, entries-append s ts us)

occurrences-collect :
    (r : ℕ) (id : MessageId) (ts : List SubscriptionData) (found : List ℕ)
    → occurrences r (collect id ts found)
      ≡ occurrences r found + entries (record { id = id; runtime = r }) ts
unfolding collect entries occurrences
occurrences-collect r id [] found = omega arith
occurrences-collect r id (t ∷ ts) found = ground (
  arith,
  occurrences-collect r id ts found,
  occurrences-collect r id ts (found ++ t.runtime ∷ []),
  occurrences-append r found (t.runtime ∷ []),
)

-- `FindSubscribers` names each runtime as often as it is registered for the id.
occurrences-find_subscribers :
    (r : ℕ) (id : MessageId) (ts : List SubscriptionData)
    → occurrences r (find_subscribers ts id) ≡ entries (record { id = id; runtime = r }) ts
unfolding find_subscribers occurrences
occurrences-find_subscribers r id ts = omega (arith, occurrences-collect r id ts [])

is_subscribed-entries :
    (s : SubscriptionData) (ts : List SubscriptionData)
    → is_subscribed ts s ≡ not (entries s ts == 0)
unfolding is_subscribed entries
is_subscribed-entries s [] = refl
is_subscribed-entries s (t ∷ ts) = ground (arith, is_subscribed-entries s ts)

-- A list of subscriptions that `Subscribe` built.
unfoldable pub subscribe_all : List SubscriptionData → List SubscriptionData → List SubscriptionData
subscribe_all ts [] = ts
subscribe_all ts (s ∷ ss) = subscribe_all (subscribe ts s) ss

-- Equal subscriptions are equal to the same others.
subscription_eq_congr :
    (s t u : SubscriptionData)
    → subscription_eq t s ≡ true
    → subscription_eq u t ≡ subscription_eq u s
unfolding id_eq
subscription_eq_congr s t u h =
    let same_id : id_code t.id ≡ id_code s.id = (eq_ℤ_iff _ _).0 (ground arith) in
    let same_runtime : t.runtime ≡ s.runtime = ground arith in cc

entries-congr :
    (s t : SubscriptionData) (ts : List SubscriptionData)
    → subscription_eq t s ≡ true
    → entries t ts ≡ entries s ts
unfolding entries
entries-congr s t [] h = refl
entries-congr s t (u ∷ ts) h = rw (subscription_eq_congr s t u h, entries-congr s t ts h)

subscription_eq_self : (s : SubscriptionData) → subscription_eq s s ≡ true
unfolding id_eq
subscription_eq_self s = ground (arith, eq_ℤ_refl (id_code s.id))

entries-subscribe :
    (s t : SubscriptionData) (ts : List SubscriptionData)
    → entries s (subscribe ts t)
      ≡ (if subscription_eq t s && entries s ts == 0 then 1 else entries s ts)
unfolding subscribe entries
entries-subscribe s t ts =
    ground (arith, is_subscribed-entries t ts, entries-congr s t ts, entries-append s ts (t ∷ []))

entries-subscribe_all :
    (s : SubscriptionData) (ts ss : List SubscriptionData)
    → entries s (subscribe_all ts ss)
      ≡ (if is_subscribed ss s && entries s ts == 0 then 1 else entries s ts)
unfolding subscribe_all is_subscribed
entries-subscribe_all s ts [] = refl
entries-subscribe_all s ts (t ∷ ss) =
    ground (arith, entries-subscribe_all s (subscribe ts t) ss, entries-subscribe s t ts)

-- After any calls of `Subscribe`, a runtime is found for an id exactly once if one of the calls
-- registered it for that id, and not at all otherwise, however often it was registered.
pub find_subscribers_exact :
    (ss : List SubscriptionData) (id : MessageId) (r : ℕ)
    → occurrences r (find_subscribers (subscribe_all [] ss) id)
      ≡ (if is_subscribed ss (record { id = id; runtime = r }) then 1 else 0)
unfolding entries
find_subscribers_exact ss id r =
    let s : SubscriptionData = record { id = id; runtime = r } in
    ground (
      arith,
      occurrences-find_subscribers r id (subscribe_all [] ss),
      entries-subscribe_all s [] ss,
    )

pub subscribe_all-append :
    (ts ss : List SubscriptionData) (s : SubscriptionData)
    → subscribe_all ts (ss ++ s ∷ []) ≡ subscribe (subscribe_all ts ss) s
unfolding subscribe_all
subscribe_all-append ts [] s = refl
subscribe_all-append ts (t ∷ ss) s = subscribe_all-append (subscribe ts t) ss s
