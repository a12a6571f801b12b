-- ===== src/Market/Subscribed/Daily.antt =====
-- The daily summary of subscriptions that `ingest_record` of apps/worker/market.py keeps.
use mathlib.Core.Bool.{false≢true}
use meraipo.Prelude.{
  ℕ, ◌≡◌, refl, sym, ◌∙◌, ap, inl, inr, Bool, true, false, Option, none, some, List, [], ◌∷◌, ◌++◌,
  if◌then◌else◌, arith, any_of, all_of, map, rows_where, first_where, update_first, delete_where,
  Bool-cases, ==_refl,
}
use meraipo.Market.Match.{Provider, nse, ipoweb, other}
use meraipo.Market.Feed.{same_provider}
use meraipo.Market.Subscribed.{
  Category, Subscription, DayKey, SubscriptionDay, Detail, Books, SubscriptionData, india_day,
  is_from, later, latest_where, is_superseded, same_day, is_day, is_detail, details_of, store_day,
  subscription_of, ingest_subscription,
}

abbrev join : Option Subscription → Subscription → Option Subscription
join none s = some s
join (some r) s = later r (some s)

latest-append :
    (p : Subscription → Bool) (ss : List Subscription) (s : Subscription)
    → latest_where p (ss ++ s ∷ [])
      ≡ (if p s then join (latest_where p ss) s else latest_where p ss)
latest-append p [] s = ground arith
latest-append p (x ∷ xs) s = ground (arith, latest-append p xs s)

join_new :
    (hash at : ℕ) (o : Option Subscription) (s : Subscription)
    → is_superseded hash at o ≡ false
    → s.observed_at ≡ at
    → join o s ≡ some s
join_new hash at none s h e = refl
join_new hash at (some r) s h e = ground arith

same_provider_refl : (p : Provider) → same_provider p p ≡ true
same_provider_refl nse = refl
same_provider_refl ipoweb = refl
same_provider_refl (other a) = ground arith

same_day_refl : (k : DayKey) → same_day k k ≡ true
same_day_refl k = ground arith

-- The subscription of a day's row, and the categories that its details hold.
abbrev subscription_in : Option SubscriptionDay → Option ℕ
subscription_in none = none
subscription_in (some d) = some d.subscription

abbrev pub day_subscription : DayKey → Books → Option ℕ
day_subscription k b = subscription_in (first_where (is_day k) b.days)

abbrev pub day_categories : DayKey → Books → List Category
day_categories k b = map (λ d. d.category) (rows_where (is_detail k) b.details)

put_day :
    (k : DayKey) (id : ℕ) (ds : List SubscriptionDay)
    → any_of (is_day k) ds ≡ true
    → subscription_in
        (first_where (is_day k) (update_first (is_day k) (λ d. record d { subscription = id }) ds))
      ≡ some id
put_day k id [] h = absurd (false≢true h)
put_day k id (d ∷ ds) h = ground (arith, put_day k id ds)

new_day :
    (k : DayKey) (id : ℕ) (ds : List SubscriptionDay)
    → any_of (is_day k) ds ≡ false
    → subscription_in (first_where (is_day k) (ds ++ record { key = k; subscription = id } ∷ []))
      ≡ some id
new_day k id [] h = rw (same_day_refl k) refl
new_day k id (d ∷ ds) h = ground (arith, new_day k id ds)

own_details :
    (k : DayKey) (cs : List Category)
    → map (λ d. d.category) (rows_where (is_detail k) (details_of k cs)) ≡ cs
own_details k [] = refl
own_details k (c ∷ cs) = rw (same_day_refl k) (ap (λ x. c ∷ x) (own_details k cs))

replaced_details :
    (k : DayKey) (cs : List Category) (ds : List Detail)
    → map
        (λ d. d.category)
        (rows_where (is_detail k) (delete_where (is_detail k) ds ++ details_of k cs))
      ≡ cs
replaced_details k cs [] = own_details k cs
replaced_details k cs (d ∷ ds) = elim (Bool-cases (is_detail k d)) [
  | inl y ↦ rw y (replaced_details k cs ds)
  | inr n ↦ rw (n, n) (replaced_details k cs ds)
]

same_day_eq : (j k : DayKey) → same_day j k ≡ true → j ≡ k
same_day_eq j k h = ground arith

-- Every detail belongs to a day's row.
abbrev pub is_linked : List SubscriptionDay → List Detail → Bool
is_linked days ds = all_of (λ d. any_of (is_day d.day) days) ds

added_details :
    (k : DayKey) (cs : List Category) (days : List SubscriptionDay) (ds : List Detail)
    → is_linked days ds ≡ true
    → any_of (is_day k) days ≡ false
    → map (λ d. d.category) (rows_where (is_detail k) (ds ++ details_of k cs)) ≡ cs
added_details k cs days [] h n = own_details k cs
added_details k cs days (d ∷ ds) h n = elim (Bool-cases (is_detail k d)) [
  | inl y ↦
      let e : d.day ≡ k = same_day_eq d.day k y in
      let present : any_of (is_day d.day) days ≡ true = ground arith in
      absurd (false≢true (sym n ∙ ap (λ x. any_of (is_day x) days) (sym e) ∙ present))
  | inr m ↦ rw m (added_details k cs days ds (ground arith) n)
]

-- What the daily summary of a subscription says.
abbrev pub IsDaily : DayKey → List Category → ℕ → Books → Type 0
IsDaily k cs id b = (day_subscription k b ≡ some id) × (day_categories k b ≡ cs)

store_day-IsDaily :
    (k : DayKey) (cs : List Category) (b : Books) (s : Subscription)
    → is_linked b.days b.details ≡ true
    → IsDaily k cs s.id (store_day k cs b s)
store_day-IsDaily k cs b s h = elim (Bool-cases (any_of (is_day k) b.days)) [
  | inl y ↦ rw y (put_day k s.id b.days y, replaced_details k cs b.details)
  | inr n ↦ rw n (new_day k s.id b.days n, added_details k cs b.days b.details h n)
]

module _ (fingerprint : List Category → ℕ) (total : ℕ) where
  new-latest :
      (id ipo : ℕ) (provider : Provider) (authority : ℕ) (d : SubscriptionData) (b : Books)
      → is_superseded
          (fingerprint d.categories)
          d.source_timestamp
          (latest_where (is_from ipo provider) b.subscriptions)
        ≡ false
      → latest_where
          (is_from ipo provider)
          (b.subscriptions ++ subscription_of fingerprint total id ipo provider authority d ∷ [])
        ≡ some (subscription_of fingerprint total id ipo provider authority d)
  new-latest id ipo provider authority d b n =
      let s = subscription_of fingerprint total id ipo provider authority d in
      let own : is_from ipo provider s ≡ true =
        rw (==_refl ipo, same_provider_refl provider) refl in
      latest-append (is_from ipo provider) b.subscriptions s
      ∙ ap
          (λ x.
            if x
            then join (latest_where (is_from ipo provider) b.subscriptions) s
            else latest_where (is_from ipo provider) b.subscriptions)
          own
      ∙ join_new (fingerprint d.categories) d.source_timestamp
          (latest_where (is_from ipo provider) b.subscriptions) s n refl

  -- After a record of subscriptions that is neither older than the provider's latest row of the IPO nor
  -- what that row says on the same Indian date, the day's row of the company and exchange points to the
  -- record's new row and has exactly the record's categories as its details, where every detail had its
  -- day's row before.
  pub ingest_subscription-IsDaily :
      (id company ipo : ℕ) (provider : Provider) (authority : ℕ) (d : SubscriptionData) (b : Books)
      → is_linked b.days b.details ≡ true
      → is_superseded
          (fingerprint d.categories)
          d.source_timestamp
          (latest_where (is_from ipo provider) b.subscriptions)
        ≡ false
      → IsDaily
          (record { company = company; date = india_day d.source_timestamp; exchange = authority })
          d.categories
          id
          (ingest_subscription fingerprint total id company ipo provider authority d b).0
  unfolding ingest_subscription
  ingest_subscription-IsDaily id company ipo provider authority d b linked n =
      rw (ingest_subscription, n, new-latest id ipo provider authority d b n)
        (store_day-IsDaily
          (record { company = company; date = india_day d.source_timestamp; exchange = authority })
          d.categories
          (record b {
            subscriptions =
                b.subscriptions
                ++ subscription_of fingerprint total id ipo provider authority d ∷ [];
          })
          (subscription_of fingerprint total id ipo provider authority d) linked)
